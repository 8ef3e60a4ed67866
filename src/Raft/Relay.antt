-- ===== src/Raft/Relay.antt =====
-- The loops of the tasks that `start_main_session` and `start_sub_session` spawn in
-- crates/overlay-mcp-raft/src/session.rs. An event is what a loop's `select!` takes up next.
pub mod Across
pub mod Examples
use overlay_mcp.Base.{
  String, ◌==◌, Bool, true, false, Option, none, some, List, [], ◌∷◌, if◌then◌else◌,
}
use overlay_mcp.Standalone.Relay.{Received, message, lagged, closed}
use overlay_mcp.Raft.Schema.{
  RaftSchemaEvent, delete_session, new_main_session, notify_to_sub_session, notify_to_main_session,
  Serde, event_to_main, event_to_sub, to_client_json_rpc_message, to_server_json_rpc_message,
}

-- `remote` is what `remote_event_recv` gives, `none` for its errors; only a main session has a transport.
pub data Event (C M : Type 0) : Type 0 where
  remote : Option RaftSchemaEvent → Event C M
  transport_stream : Option M → Event C M
  recv : Received C → Event C M
  stop : Event C M

-- What a relay sends on: to the server over its transport, to the cluster, and to the clients of its node;
-- and whether an `unwrap` ended it. A send that fails is only logged.
pub record Sent (C M : Type 0) : Type 0 where
  pub to_server : List C
  pub notified : List RaftSchemaEvent
  pub to_client : List M
  pub panicked : Bool

module _ {C M : Type 0} where
  abbrev pub nothing : Sent C M
  nothing = record { to_server = []; notified = []; to_client = []; panicked = false }

  abbrev pub panic : Sent C M
  panic = record nothing { panicked = true }

  abbrev pub serve : C → Sent C M → Sent C M
  serve msg sent = record sent { to_server = msg ∷ sent.to_server }

  abbrev pub tell : RaftSchemaEvent → Sent C M → Sent C M
  tell event sent = record sent { notified = event ∷ sent.notified }

  abbrev pub pass : M → Sent C M → Sent C M
  pass msg sent = record sent { to_client = msg ∷ sent.to_client }

  -- `unwrap`
  abbrev pub unwrap {ℓ} : {A : Type ℓ} → Option A → (A → Sent C M) → Sent C M
  unwrap none f = panic
  unwrap (some a) f = f a

  module _ (client_json : Serde C) (server_json : Serde M) (my_session_id : String) where
    -- The arm of `remote_event_recv` in a main session, before the rest of the run.
    abbrev pub heard_by_main : RaftSchemaEvent → Sent C M → Sent C M
    heard_by_main (notify_to_main_session event) sent =
        let mine = unwrap (to_client_json_rpc_message client_json event) (λ msg. serve msg sent) in
        if event.session_id == my_session_id then mine else sent
    heard_by_main _ sent = sent

    unfoldable pub main_loop : List (Event C M) → Sent C M
    main_loop [] = nothing
    main_loop (remote (some event) ∷ events) = heard_by_main event (main_loop events)
    main_loop (remote none ∷ events) = main_loop events
    main_loop (transport_stream (some msg) ∷ events) =
        let rest = main_loop events in
        unwrap (event_to_sub server_json my_session_id msg) (λ event. tell event (pass msg rest))
    main_loop (transport_stream none ∷ events) = nothing
    main_loop (recv (message msg) ∷ events) = serve msg (main_loop events)
    main_loop (recv lagged ∷ events) = main_loop events
    main_loop (recv closed ∷ events) = nothing
    main_loop (stop ∷ events) = nothing

    abbrev pub heard_by_sub : RaftSchemaEvent → Sent C M → Sent C M
    heard_by_sub (notify_to_sub_session event) sent =
        let mine = unwrap (to_server_json_rpc_message server_json event) (λ msg. pass msg sent) in
        if event.session_id == my_session_id then mine else sent
    heard_by_sub _ sent = sent

    -- A sub session has no transport: it never takes up one.
    unfoldable pub sub_loop : List (Event C M) → Sent C M
    sub_loop [] = nothing
    sub_loop (remote (some event) ∷ events) = heard_by_sub event (sub_loop events)
    sub_loop (remote none ∷ events) = sub_loop events
    sub_loop (transport_stream _ ∷ events) = sub_loop events
    sub_loop (recv (message msg) ∷ events) =
        let rest = sub_loop events in
        unwrap (event_to_main client_json my_session_id msg) (λ event. tell event rest)
    sub_loop (recv lagged ∷ events) = sub_loop events
    sub_loop (recv closed ∷ events) = nothing
    sub_loop (stop ∷ events) = nothing
