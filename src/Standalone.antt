-- ===== src/Standalone.antt =====
-- crates/overlay-mcp-standalone/src/session.rs: the session of a single node. Tokio's channels are
-- parameters: `R` and `S` are the ends that the relay works with, `U`, `D` and `B` the three streams
-- that are lent out under guards.
pub mod Ends
pub mod Lost
pub mod Streams
pub mod Stop
pub mod Relay
pub mod Replay
pub mod Moves
pub mod Service
pub mod Manager
pub mod Examples
pub use overlay_mcp.Core.Slots.{Slot}
unfoldable pub use overlay_mcp.Core.Slots.{lone, lend, take_slot, guard_loop}
use overlay_mcp.Base.{
  String, ◌≡◌, Bool, true, false, ◌||◌, Option, none, some, List, [], ◌∷◌, ◌++◌, Result, ok, err,
  if◌then◌else◌,
}
use overlay_mcp.Core.Errors.{
  Error, already_closed_session, already_started_session, already_stopped_session, fatal, timeout,
}

-- `Started` keeps its stop token: whether that token itself is cancelled.
pub data Connection (R S : Type 0) : Type 0 where
  stopped : (clt_recv : R) (svr_send : S) → Connection R S
  started : (stop_ct : Bool) → Connection R S

-- The session and the tasks that share it: a `start` that waits for its transport holds `starting`, the
-- relay task holds `relay`. `cancelled` is `cancel_token`. The upstream URL, which
-- only the transport reads, is left out.
pub record Session (R S U D B : Type 0) : Type 0 where
  pub session_id : String
  pub upstream : Slot U
  pub downstream : Slot D
  pub bypass_downstream : Slot B
  pub connection : Connection R S
  pub starting : Option (R × S)
  pub relay : Option (R × S)
  pub cancelled : Bool

module _ {R S : Type 0} where
  unfoldable pub is_started_connection : Connection R S → Bool
  is_started_connection (started _) = true
  is_started_connection (stopped _ _) = false

  -- The ends, and the connection with a fresh stop token.
  unfoldable pub take : Connection R S → Option (R × S) × Connection R S
  take (started stop_ct) = (none, started stop_ct)
  take (stopped clt_recv svr_send) = (some (clt_recv, svr_send), started false)

  -- The stop token that is replaced is cancelled; only the relay that ends had it.
  unfoldable pub restore : R → S → Connection R S → Connection R S
  restore clt_recv svr_send (stopped r s) = stopped r s
  restore clt_recv svr_send (started _) = stopped clt_recv svr_send

module _ {R S U D B : Type 0} where
  -- The channels are made by tokio, and shared out.
  unfoldable pub new :
      (session_id : String) (upstream : U) (downstream : D) (bypass : B) (clt_recv : R)
      (svr_send : S)
      → Session R S U D B
  new session_id upstream downstream bypass clt_recv svr_send = record {
    session_id = session_id;
    upstream = lone upstream;
    downstream = lone downstream;
    bypass_downstream = lone bypass;
    connection = stopped clt_recv svr_send;
    starting = none;
    relay = none;
    cancelled = false;
  }

  abbrev pub closed_error : Session R S U D B → Error
  closed_error self = already_closed_session self.session_id

  module _ {A : Type 0} (get : Session R S U D B → Slot A)
      (put : Slot A → Session R S U D B → Session R S U D B) where
    unfoldable pub guard_stream :
        Session R S U D B → (later : List (Session R S U D B)) → Result A Error × Session R S U D B
    guard_stream self later =
        if self.cancelled then (err (closed_error self), self) else guard_loop get put self later

  abbrev pub put_upstream : Slot U → Session R S U D B → Session R S U D B
  put_upstream slot self = record self { upstream = slot }

  abbrev pub put_downstream : Slot D → Session R S U D B → Session R S U D B
  put_downstream slot self = record self { downstream = slot }

  abbrev pub put_bypass : Slot B → Session R S U D B → Session R S U D B
  put_bypass slot self = record self { bypass_downstream = slot }

  -- After the first lock this one waits for `stream_notify`: `woken` is what it finds after each
  -- notification.
  unfoldable pub guard_upstream :
      Session R S U D B → (woken : List (Session R S U D B)) → Result U Error × Session R S U D B
  guard_upstream = guard_stream (λ s. s.upstream) put_upstream

  unfoldable pub guard_downstream :
      Session R S U D B → (later : List (Session R S U D B)) → Result D Error × Session R S U D B
  guard_downstream = guard_stream (λ s. s.downstream) put_downstream

  unfoldable pub guard_bypass_downstream :
      Session R S U D B → (later : List (Session R S U D B)) → Result B Error × Session R S U D B
  guard_bypass_downstream = guard_stream (λ s. s.bypass_downstream) put_bypass

  -- `guard_close` only checks the token; the drop of its guard cancels it.
  unfoldable pub guard_close : Session R S U D B → Result (Unit {0}) Error × Session R S U D B
  guard_close self = if self.cancelled then (err (closed_error self), self) else (ok tt, self)

  unfoldable pub cancel : Session R S U D B → Session R S U D B
  cancel self = record self { cancelled = true }

  unfoldable pub is_started : Session R S U D B → Bool
  unfolding is_started_connection
  is_started self = if self.cancelled then false else is_started_connection self.connection

  abbrev pub begin_start :
      Session R S U D B
      → Option (R × S) × Connection R S
      → Result (Unit {0}) Error × Session R S U D B
  begin_start self (none, connection) = (err (already_started_session self.session_id), self)
  begin_start self (some ends, connection) =
      (ok tt, record self { connection = connection; starting = some ends })

  -- `start` up to the transport's `await`, which the taken ends wait for.
  unfoldable pub start : Session R S U D B → Result (Unit {0}) Error × Session R S U D B
  unfolding take
  start self =
      let taken = begin_start self (take self.connection) in
      if self.cancelled then (err (closed_error self), self) else taken

  -- The rest of `start`: a good transport gets a relay with the ends, a failed one is the error that
  -- `?` returns, and the ends are dropped.
  unfoldable pub finish_start :
      Session R S U D B → Result (Unit {0}) Error → Result (Unit {0}) Error × Session R S U D B
  finish_start self (ok _) = (ok tt, record self { starting = none; relay = self.starting })
  finish_start self (err e) = (err e, record self { starting = none })

  unfoldable pub end_with : Session R S U D B → Option (R × S) → Session R S U D B
  unfolding restore
  end_with self none = self
  end_with self (some (recv, send)) = record self {
    connection = restore recv send self.connection;
    relay = none;
  }

  -- What the relay task does after its loop.
  unfoldable pub end_relay : Session R S U D B → Session R S U D B
  unfolding end_with
  end_relay self = end_with self self.relay

  -- The wait of `stop`: `woken` is what it finds after each notification, until time is up.
  unfoldable pub wait_stopped : (woken : List (Session R S U D B)) → Result (Unit {0}) Error
  unfolding is_started_connection
  wait_stopped [] = err (fatal timeout)
  wait_stopped (now ∷ woken) =
      let rest = wait_stopped woken in if is_started_connection now.connection then rest else ok tt

  abbrev pub ask_stop :
      Session R S U D B → Connection R S → Result (Unit {0}) Error × Session R S U D B
  ask_stop self (stopped _ _) = (err (already_stopped_session self.session_id), self)
  ask_stop self (started _) = (ok tt, record self { connection = started true })

  -- `stop` until it waits.
  unfoldable pub request_stop : Session R S U D B → Result (Unit {0}) Error × Session R S U D B
  request_stop self =
      let asked = ask_stop self self.connection in
      if self.cancelled then (err (closed_error self), self) else asked

  abbrev pub await_stop :
      (woken : List (Session R S U D B))
      → Result (Unit {0}) Error × Session R S U D B
      → Result (Unit {0}) Error × Session R S U D B
  await_stop woken (ok _, after) = (wait_stopped woken, after)
  await_stop woken (err e, after) = (err e, after)

  unfoldable pub stop :
      Session R S U D B
      → (woken : List (Session R S U D B)) → Result (Unit {0}) Error × Session R S U D B
  stop self woken = await_stop woken (request_stop self)

  unfoldable pub close : Session R S U D B → Result (Unit {0}) Error × Session R S U D B
  unfolding cancel
  close self = if self.cancelled then (err (closed_error self), self) else (ok tt, cancel self)
