-- ===== src/Raft/Session.antt =====
-- crates/overlay-mcp-raft/src/session.rs: one node's part of a session, as far as
-- the cluster has no say in it. Tokio's channels are parameters, as in Standalone.antt.
use overlay_mcp.Base.{
  String, Bool, true, false, Option, none, some, List, Result, ok, err, if◌then◌else◌,
}
use overlay_mcp.Core.Errors.{Error, Url, already_closed_session, already_started_session}
use overlay_mcp.Core.Slots.{Slot, lone, guard_loop}

pub data RaftSessionConnection (R S : Type 0) : Type 0 where
  stopped : (clt_recv : R) (svr_send : S) → RaftSessionConnection R S
  started : (stop_ct : Bool) → RaftSessionConnection R S

pub record RaftSessionChannels (R S U D B : Type 0) : Type 0 where
  pub upstream : Slot U
  pub downstream : Slot D
  pub bypass_downstream : Slot B
  pub connection : RaftSessionConnection R S

-- What the task of a started session runs: `start_main_session` or `start_sub_session`.
pub data Role : Type 0 where
  main sub : Role

-- The session and the tasks that share its channels: a `start_main_session` that waits for its transport
-- holds `starting`, the relay task holds `relay`.
pub record RaftSession (R S U D B : Type 0) : Type 0 where
  pub session_id : String
  pub upstream_url : Url
  pub subsession_id : String
  pub channels : RaftSessionChannels R S U D B
  pub cancelled : Bool
  pub starting : Option (R × S)
  pub relay : Option (Role × (R × S))

module _ {R S : Type 0} where
  abbrev pub run_main : Option (R × S) → Option (Role × (R × S))
  run_main none = none
  run_main (some ends) = some (main, ends)

  unfoldable pub is_started_connection : RaftSessionConnection R S → Bool
  is_started_connection (started _) = true
  is_started_connection (stopped _ _) = false

  unfoldable pub take : RaftSessionConnection R S → Option (R × S) × RaftSessionConnection R S
  take (started stop_ct) = (none, started stop_ct)
  take (stopped clt_recv svr_send) = (some (clt_recv, svr_send), started false)

  -- The stop token that is replaced is cancelled; only the relay that ends had it.
  unfoldable pub restore : R → S → RaftSessionConnection R S → RaftSessionConnection R S
  restore clt_recv svr_send (stopped r s) = stopped r s
  restore clt_recv svr_send (started _) = stopped clt_recv svr_send

module _ {R S U D B : Type 0} where
  -- `Uuid::new_v4` gives the id of the subsession, tokio the channels.
  unfoldable pub new :
      (session_id : String) (upstream_url : Url) (subsession_id : String) (upstream : U)
      (downstream : D) (bypass : B) (clt_recv : R) (svr_send : S)
      → RaftSession R S U D B
  new session_id upstream_url subsession_id upstream downstream bypass clt_recv svr_send = record {
    session_id = session_id;
    upstream_url = upstream_url;
    subsession_id = subsession_id;
    channels = record {
      upstream = lone upstream;
      downstream = lone downstream;
      bypass_downstream = lone bypass;
      connection = stopped clt_recv svr_send;
    };
    cancelled = false;
    starting = none;
    relay = none;
  }

  abbrev pub closed_error : RaftSession R S U D B → Error
  closed_error self = already_closed_session self.session_id

  abbrev pub put_upstream : Slot U → RaftSession R S U D B → RaftSession R S U D B
  put_upstream slot self = record self { channels = record self.channels { upstream = slot } }

  abbrev pub put_downstream : Slot D → RaftSession R S U D B → RaftSession R S U D B
  put_downstream slot self = record self { channels = record self.channels { downstream = slot } }

  abbrev pub put_bypass : Slot B → RaftSession R S U D B → RaftSession R S U D B
  put_bypass slot self = record self {
    channels = record self.channels { bypass_downstream = slot };
  }

  abbrev pub put_connection :
      RaftSessionConnection R S → RaftSession R S U D B → RaftSession R S U D B
  put_connection connection self = record self {
    channels = record self.channels { connection = connection };
  }

  -- The looks that the three take are as in the standalone session.
  unfoldable pub guard_upstream :
      RaftSession R S U D B
      → (woken : List (RaftSession R S U D B)) → Result U Error × RaftSession R S U D B
  guard_upstream self woken =
      if self.cancelled
      then (err (closed_error self), self)
      else guard_loop (λ s. s.channels.upstream) put_upstream self woken

  unfoldable pub guard_downstream :
      RaftSession R S U D B
      → (later : List (RaftSession R S U D B)) → Result D Error × RaftSession R S U D B
  guard_downstream self later =
      if self.cancelled
      then (err (closed_error self), self)
      else guard_loop (λ s. s.channels.downstream) put_downstream self later

  unfoldable pub guard_bypass_downstream :
      RaftSession R S U D B
      → (later : List (RaftSession R S U D B)) → Result B Error × RaftSession R S U D B
  guard_bypass_downstream self later =
      if self.cancelled
      then (err (closed_error self), self)
      else guard_loop (λ s. s.channels.bypass_downstream) put_bypass self later

  -- This one has no check; the drop of its guard cancels the token of this node's session.
  unfoldable pub guard_close :
      RaftSession R S U D B → Result (Unit {0}) Error × RaftSession R S U D B
  guard_close self = (ok tt, self)

  unfoldable pub cancel : RaftSession R S U D B → RaftSession R S U D B
  cancel self = record self { cancelled = true }

  unfoldable pub is_started : RaftSession R S U D B → Bool
  unfolding is_started_connection
  is_started self = if self.cancelled then false else is_started_connection self.channels.connection

  -- `take` and its `ok_or`, where the ends go to `keep`.
  abbrev pub take_for :
      (keep : R × S → RaftSession R S U D B → RaftSession R S U D B)
      → RaftSession R S U D B
      → Option (R × S) × RaftSessionConnection R S
      → Result (Unit {0}) Error × RaftSession R S U D B
  take_for keep self (none, connection) = (err (already_started_session self.session_id), self)
  take_for keep self (some ends, connection) = (ok tt, keep ends (put_connection connection self))

  abbrev pub wait_for_transport : R × S → RaftSession R S U D B → RaftSession R S U D B
  wait_for_transport ends self = record self { starting = some ends }

  abbrev pub run_sub : R × S → RaftSession R S U D B → RaftSession R S U D B
  run_sub ends self = record self { relay = some (sub, ends) }

  -- `start_main_session` up to the transport's `await`.
  unfoldable pub start_main_session :
      RaftSession R S U D B → Result (Unit {0}) Error × RaftSession R S U D B
  unfolding take
  start_main_session self =
      if self.cancelled
      then (err (closed_error self), self)
      else take_for wait_for_transport self (take self.channels.connection)

  -- The rest of it: a failed transport is the error of `?`, and the ends are dropped.
  unfoldable pub finish_main_session :
      RaftSession R S U D B
      → Result (Unit {0}) Error
      → Result (Unit {0}) Error × RaftSession R S U D B
  finish_main_session self (ok _) =
      (ok tt, record self { starting = none; relay = run_main self.starting })
  finish_main_session self (err e) = (err e, record self { starting = none })

  unfoldable pub start_sub_session :
      RaftSession R S U D B → Result (Unit {0}) Error × RaftSession R S U D B
  unfolding take
  start_sub_session self =
      if self.cancelled
      then (err (closed_error self), self)
      else take_for run_sub self (take self.channels.connection)

  unfoldable pub end_with : RaftSession R S U D B → Option (Role × (R × S)) → RaftSession R S U D B
  unfolding restore
  end_with self none = self
  end_with self (some (role, (recv, send))) = record self {
    channels = record self.channels { connection = restore recv send self.channels.connection };
    relay = none;
  }

  -- What the relay task of either role does after its loop.
  unfoldable pub end_relay : RaftSession R S U D B → RaftSession R S U D B
  unfolding end_with
  end_relay self = end_with self self.relay

  -- `start_sub_session` for the subsession that is elected, `start_main_session` for the others.
  unfoldable pub run_role :
      (elected : Bool) → RaftSession R S U D B → Result (Unit {0}) Error × RaftSession R S U D B
  run_role true self = start_sub_session self
  run_role false self = start_main_session self
