-- ===== src/Raft/Cluster.antt =====
-- crates/overlay-mcp-raft/src/session.rs: what a session asks of the cluster, a world `W` that hiqlite's client
-- works on.
use overlay_mcp.Base.{
  String, ◌==◌, Bool, true, false, Option, none, some, List, [], ◌∷◌, Result, ok, err, ok_or,
  if◌then◌else◌,
}
use overlay_mcp.Core.Errors.{Error, already_closed_session, already_stopped_session, fatal, timeout}
use overlay_mcp.Core.Action.{Action, pure, lift, ◌>>=◌, ◌>>◌, dropping}
use overlay_mcp.Raft.Schema.{RaftSessionData, RaftClient, delete_session, from_hiqlite, locked}
use overlay_mcp.Raft.Session.{
  RaftSession, RaftSessionConnection, stopped, started, closed_error, put_connection,
  is_started_connection, run_role,
}

abbrev pub is_main : String → Option String → Bool
is_main subsession_id none = false
is_main subsession_id (some other) = other == subsession_id

-- `session_data.main_subsession_id.as_ref() == Some(&self.subsession_id)`
unfoldable pub is_elected : (subsession_id : String) → RaftSessionData → Bool
is_elected subsession_id session_data = is_main subsession_id session_data.main_subsession_id

-- `if session_data.main_subsession_id.is_none() { .. }`
abbrev pub claim_main : (subsession_id : String) → Option String → Option String
claim_main subsession_id none = some subsession_id
claim_main subsession_id (some other) = some other

unfoldable pub claim : (subsession_id : String) → RaftSessionData → RaftSessionData
claim subsession_id session_data = record session_data {
  main_subsession_id = claim_main subsession_id session_data.main_subsession_id;
}

module _ {R S U D B : Type 0} where
  abbrev pub ask_stop :
      RaftSession R S U D B
      → RaftSessionConnection R S
      → Result (Unit {0}) Error × RaftSession R S U D B
  ask_stop self (stopped _ _) = (err (already_stopped_session self.session_id), self)
  ask_stop self (started _) = (ok tt, put_connection (started true) self)

  -- The wait of `stop`: `woken` is what it finds after each notification, until time is up.
  unfoldable pub wait_stopped : (woken : List (RaftSession R S U D B)) → Result (Unit {0}) Error
  wait_stopped [] = err (fatal timeout)
  wait_stopped (now ∷ woken) =
      let rest = wait_stopped woken in
      if is_started_connection now.channels.connection then rest else ok tt

-- An operation's result, its session and the cluster after it.
abbrev pub After : (W R S U D B : Type 0) → Type 0
After W R S U D B = Result (Unit {0}) Error × (RaftSession R S U D B × W)

module _ {W R S U D B : Type 0} where
  abbrev pub await_stop :
      (woken : List (RaftSession R S U D B)) → After W R S U D B → After W R S U D B
  await_stop woken (ok _, after) = (wait_stopped woken, after)
  await_stop woken (err e, after) = (err e, after)

module _ {W : Type 0} (client : RaftClient W) where
  abbrev pub known : (session_id : String) → Option RaftSessionData → Action W RaftSessionData
  known session_id session_data = lift (ok_or session_data (already_closed_session session_id))

  -- `get` and its `ok_or_else`.
  unfoldable pub read_data : (session_id : String) → Action W RaftSessionData
  read_data session_id = (λ w. from_hiqlite (client.get session_id w)) >>= known session_id

  abbrev pub put_data : String → RaftSessionData → Action W (Unit {0})
  put_data session_id session_data w = from_hiqlite (client.put session_id session_data w)

  -- `start` while it has the cluster's lock.
  unfoldable pub elect_locked : (session_id subsession_id : String) → Action W RaftSessionData
  elect_locked session_id subsession_id = do
    session_data ← read_data session_id
    put_data session_id (claim subsession_id session_data)
    pure (claim subsession_id session_data)

  abbrev pub with_lock : {A : Type 0} → (session_id : String) → Action W A → Action W A
  with_lock session_id body =
      (λ w. locked (client.lock session_id w)) >> dropping (client.drop_lock session_id) body

  -- `start` until it drops the lock, which it does on every way out.
  unfoldable pub elect : (session_id subsession_id : String) → Action W RaftSessionData
  elect session_id subsession_id = with_lock session_id (elect_locked session_id subsession_id)

  abbrev pub resign_as : (elected : Bool) → String → RaftSessionData → Action W (Unit {0})
  resign_as true session_id session_data =
      put_data session_id (record session_data { main_subsession_id = none })
  resign_as false session_id session_data = pure tt

  -- `stop` while it has the lock, and until it drops it.
  unfoldable pub resign_locked : (session_id subsession_id : String) → Action W (Unit {0})
  resign_locked session_id subsession_id = do
    session_data ← read_data session_id
    resign_as (is_elected subsession_id session_data) session_id session_data

  unfoldable pub resign : (session_id subsession_id : String) → Action W (Unit {0})
  resign session_id subsession_id = with_lock session_id (resign_locked session_id subsession_id)

  module _ {R S U D B : Type 0} where
    abbrev with_cluster : W → Result (Unit {0}) Error × RaftSession R S U D B → After W R S U D B
    with_cluster w (r, self) = (r, (self, w))

    abbrev pub start_as :
        RaftSession R S U D B → Result RaftSessionData Error × W → After W R S U D B
    start_as self (err e, w) = (err e, (self, w))
    start_as self (ok session_data, w) =
        with_cluster w (run_role (is_elected self.subsession_id session_data) self)

    unfoldable pub start : RaftSession R S U D B → W → After W R S U D B
    start self w =
        if self.cancelled
        then (err (closed_error self), (self, w))
        else start_as self (elect self.session_id self.subsession_id w)

    abbrev pub stop_as : RaftSession R S U D B → Result (Unit {0}) Error × W → After W R S U D B
    stop_as self (err e, w) = (err e, (self, w))
    stop_as self (ok _, w) = with_cluster w (ask_stop self self.channels.connection)

    -- `stop` until it waits.
    unfoldable pub request_stop : RaftSession R S U D B → W → After W R S U D B
    request_stop self w =
        if self.cancelled
        then (err (closed_error self), (self, w))
        else stop_as self (resign self.session_id self.subsession_id w)

    unfoldable pub stop :
        RaftSession R S U D B → (woken : List (RaftSession R S U D B)) → W → After W R S U D B
    stop self woken w = await_stop woken (request_stop self w)

    -- `close` tells the cluster; the session itself is cancelled by the event.
    unfoldable pub close : RaftSession R S U D B → Action W (Unit {0})
    close self =
        (λ w. from_hiqlite (client.delete self.session_id w))
        >> (λ w. from_hiqlite (client.notify (delete_session self.session_id) w))
