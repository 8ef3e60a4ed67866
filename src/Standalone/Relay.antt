-- ===== src/Standalone/Relay.antt =====
-- The loop of the task that `start` spawns in crates/overlay-mcp-standalone/src/session.rs. An event is
-- what its `select!` takes up next: a message or the end of the transport's stream, what the receiver
-- of client messages gives, or the stop token.
use overlay_mcp.Base.{◌≡◌, refl, Option, none, some, List, [], ◌∷◌, ◌++◌, All, ap}

pub data Received (C : Type 0) : Type 0 where
  message : C → Received C
  lagged closed : Received C

pub data Event (C M : Type 0) : Type 0 where
  transport_stream : Option M → Event C M
  recv : Received C → Event C M
  stop : Event C M

-- What is sent on, to the client and to the server; a send that fails is only logged.
pub record Sent (C M : Type 0) : Type 0 where
  pub to_client : List M
  pub to_server : List C

module _ {C M : Type 0} where
  abbrev pub nothing : Sent C M
  nothing = record { to_client = []; to_server = [] }

  abbrev pub client_too : M → Sent C M → Sent C M
  client_too msg sent = record sent { to_client = msg ∷ sent.to_client }

  abbrev pub server_too : C → Sent C M → Sent C M
  server_too msg sent = record sent { to_server = msg ∷ sent.to_server }

  unfoldable pub relay_loop : List (Event C M) → Sent C M
  relay_loop [] = nothing
  relay_loop (transport_stream (some msg) ∷ events) = client_too msg (relay_loop events)
  relay_loop (transport_stream none ∷ events) = nothing
  relay_loop (recv (message msg) ∷ events) = server_too msg (relay_loop events)
  relay_loop (recv lagged ∷ events) = relay_loop events
  relay_loop (recv closed ∷ events) = nothing
  relay_loop (stop ∷ events) = nothing

  -- An event that ends the relay.
  pub data Ends : Event C M → Type 0 where
    stream_ended : Ends (transport_stream none)
    receiver_closed : Ends (recv closed)
    stopped : Ends stop

  abbrev pub from_server : List (Event C M) → List M
  from_server [] = []
  from_server (transport_stream (some msg) ∷ events) = msg ∷ from_server events
  from_server (_ ∷ events) = from_server events

  abbrev pub from_client : List (Event C M) → List C
  from_client [] = []
  from_client (recv (message msg) ∷ events) = msg ∷ from_client events
  from_client (_ ∷ events) = from_client events

  -- Up to the event that ends it, the relay passes on every message, each to the other side, in order and
  -- once, and nothing that comes after.
  pub relay_loop-passes_on :
      (before after : List (Event C M)) (last : Event C M)
      → All (λ e. ¬ Ends e) before
      → Ends last
      → relay_loop (before ++ (last ∷ after))
        ≡ record { to_client = from_server before; to_server = from_client before }
  unfolding relay_loop
  relay_loop-passes_on [] after _ a stream_ended = refl
  relay_loop-passes_on [] after _ a receiver_closed = refl
  relay_loop-passes_on [] after _ a stopped = refl
  relay_loop-passes_on (transport_stream (some msg) ∷ before) after last (_, a) e =
      ap (client_too msg) (relay_loop-passes_on before after last a e)
  relay_loop-passes_on (transport_stream none ∷ before) after last (n, a) e =
      absurd (n stream_ended)
  relay_loop-passes_on (recv (message msg) ∷ before) after last (_, a) e =
      ap (server_too msg) (relay_loop-passes_on before after last a e)
  relay_loop-passes_on (recv lagged ∷ before) after last (_, a) e =
      relay_loop-passes_on before after last a e
  relay_loop-passes_on (recv closed ∷ before) after last (n, a) e = absurd (n receiver_closed)
  relay_loop-passes_on (stop ∷ before) after last (n, a) e = absurd (n stopped)
