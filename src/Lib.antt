-- ===== src/Lib.antt =====
-- overlay-mcp is a gateway in front of MCP servers: it authenticates a client, asks an authorizer
-- about it and about its messages, and relays the messages of its session to an upstream server.
-- These files model the program's crates as functions and state them correct.
--
-- How the parts interact. A request's credentials are read by the authenticator (Auth/Authn.antt,
-- crates/overlay-mcp-auth/src/authn_basic.rs) from the references that Http/Request.antt resolves
-- (crates/httpbuilder/src/lib.rs, crates/overlay-mcp-core/src/mcp.rs); Http/Reference.antt reads
-- and prints references (crates/httpbuilder/src/http_reference.rs). What it finds goes to one of
-- two authorizers: the static lists (Auth/Static.antt, authz_static.rs), or tuples that an OpenFGA
-- server is asked about (Auth/Fga.antt, authz_fga.rs) over the client of crates/openfga
-- (Openfga.antt). A new session goes to the upstream that Resolver.antt chooses
-- (crates/overlay-mcp-resolver). The sessions of a single node are Standalone.antt and its children
-- (crates/overlay-mcp-standalone/src/session.rs and session_manager.rs); Standalone/Service.antt
-- makes them the traits of general.rs, under which the handlers run. The sessions that the nodes of
-- a cluster share are Raft.antt and its children (crates/overlay-mcp-raft/src): Schema is what the
-- nodes store and tell each other, Session the state on one node, Cluster what a session asks of
-- hiqlite, Relay the loops of both roles, Node and Manager session_manager.rs. `POST /message` is
-- Server/Message.antt and `GET /sse` Server/Sse.antt (crates/overlay-mcp-svr/src/router/message.rs
-- and sse.rs); Server/Extract.antt is the extractors that run before them (middlewares/auth.rs,
-- middlewares/session.rs, utils/jsonrequest.rs), Server/Layers.antt the layers around the routes
-- (middlewares), and Server/Routes.antt composes them, with the authorizer that Auth/Dispatch.antt
-- chooses (crates/overlay-mcp-auth/src/lib.rs). Sessions.antt chooses the kind of the sessions
-- (crates/overlay-mcp-session-manager/src/lib.rs). The handlers use sessions through the traits of
-- crates/overlay-mcp-core/src/general.rs, which are records of operations in Core/General.antt.
-- Core also has the errors and their responses (errors.rs), the models (models.rs), the
-- configuration (config) and JSON values. The routes that stand for an OAuth provider are
-- Server/Oauth.antt (router/authorize.rs, token.rs, register.rs and
-- well_known/oauth_authorization_server.rs), and Server/Router.antt is what the server is made of
-- (router/mod.rs, meta/mod.rs). Cli.antt is the configuration that the command line stands for
-- (crates/overlay-mcp-cli/src/utils.rs and run.rs), and Cli/Run.antt the run itself.
-- Http/Builder.antt is crates/httpbuilder/src/builder.rs, which nothing calls yet. Base.antt passes
-- on what all share.
--
-- Functions keep their names in the source. A function that returns a `Result` returns one here; an
-- async method that changes shared state is an `Action`, from a world to a result and the world
-- after it; a panic is `none`. The operations of a standalone session are functions on its state,
-- cut where they wait: what a wait finds is an argument, and `Step` in Standalone/Ends.antt, and in
-- Raft for its sessions, has every order of the pieces. Standalone/Replay.antt runs a script of the
-- pieces, by which Raft/Simulation.antt compares the two kinds of session. So no loop needs fuel:
-- each runs over a list, of rules, keys, messages or looks at a lock. The one machine-width number
-- is the resolver's counter, which wraps at 2 ^ 64.
--
-- Third-party code is a parameter: JSON pointers, JWT decoding, URL parsing, DNS, HTTP, form
-- decoding, hiqlite, serde_json and the channels of tokio. Texts are over code points, with ASCII
-- letters and spaces for case and whitespace.
--
-- Not modelled: the handlers of other crates under /.meta, logging, telemetry, and the signals that
-- end the server, since they are calls of libraries.
pub mod Base
pub mod Core
pub mod Http
pub mod Openfga
pub mod Auth
pub mod Resolver
pub mod Server
pub mod Sessions
pub mod Cli
pub mod Standalone
pub mod Raft
