-- ===== src/Raft/Manager.antt =====
-- crates/overlay-mcp-raft/src/session_manager.rs: a node's manager, with the state of each of its
-- sessions. The loop of the task that `RaftManager::new` spawns is `on_event`, once for each event.
pub mod Found
pub mod Closed
pub mod Examples
use overlay_mcp.Base.{
  String, ◌==◌, Bool, Option, none, some, List, [], ◌∷◌, lookup, insert, remove, Result, ok, err,
  ok_or, if◌then◌else◌,
}
use overlay_mcp.Core.Errors.{Error, Url}
use overlay_mcp.Raft.Schema.{
  RaftSessionData, RaftSchemaEvent, RaftClient, delete_session, from_hiqlite,
}
use overlay_mcp.Raft.Session.{RaftSession, new, cancel}

-- `events` is what the node has broadcast to its sessions.
pub record RaftManager (R S U D B : Type 0) : Type 0 where
  pub sessions : List (String × RaftSession R S U D B)
  pub events : List RaftSchemaEvent

-- A result, the manager and the cluster after it.
abbrev pub Made : (W R S U D B A : Type 0) → Type 0
Made W R S U D B A = Result A Error × (RaftManager R S U D B × W)

module _ {R S U D B : Type 0} where
  abbrev pub drop_session :
      Option (RaftSession R S U D B)
      → String
      → RaftManager R S U D B
      → Option (RaftSession R S U D B) × RaftManager R S U D B
  drop_session none id self = (none, self)
  drop_session (some session) id self =
      (some (cancel session), record self { sessions = remove id self.sessions })

  -- What `listen` gives, `none` for its errors; the session that is removed is answered, cancelled.
  unfoldable pub on_event :
      Option RaftSchemaEvent
      → RaftManager R S U D B
      → Option (RaftSession R S U D B) × RaftManager R S U D B
  on_event (some (delete_session id)) self = drop_session (lookup id self.sessions) id self
  on_event (some event) self = (none, record self { events = event ∷ self.events })
  on_event none self = (none, self)

  abbrev pub insert_session :
      {W : Type 0}
      → RaftSession R S U D B
      → RaftManager R S U D B
      → Result (Unit {0}) Error × W
      → Made W R S U D B (RaftSession R S U D B)
  insert_session session self (err e, w) = (err e, (self, w))
  insert_session session self (ok _, w) =
      (ok session, (record self { sessions = insert session.session_id session self.sessions }, w))

  -- `entry`, `or_insert_with` and `clone`, where a new session is `made`.
  abbrev pub or_insert :
      {W : Type 0}
      → (made : RaftSession R S U D B) → RaftManager R S U D B
      → W
      → Option (RaftSession R S U D B)
      → Made W R S U D B (Option (RaftSession R S U D B))
  or_insert made self w (some session) = (ok (some session), (self, w))
  or_insert made self w none =
      (ok (some made), (record self { sessions = insert made.session_id made self.sessions }, w))

  module _ {W : Type 0} (client : RaftClient W) (subsession_id : String) (u : U) (d : D) (b : B)
      (r : R) (s : S) where
    unfoldable pub create :
        (session_id : String) (upstream_url : Url)
        → RaftManager R S U D B
        → W
        → Made W R S U D B (RaftSession R S U D B)
    create session_id upstream_url self w =
        insert_session (new session_id upstream_url subsession_id u d b r s) self (
          from_hiqlite (
            client.put session_id
              (record {
                session_id = session_id;
                upstream_url = upstream_url;
                main_subsession_id = none;
              })
              w))

    abbrev pub find_local :
        RaftSessionData
        → Option (RaftSession R S U D B)
        → RaftManager R S U D B
        → W
        → Made W R S U D B (Option (RaftSession R S U D B))
    find_local session_data (some session) self w = (ok (some session), (self, w))
    find_local session_data none self w =
        or_insert (new session_data.session_id session_data.upstream_url subsession_id u d b r s)
          self w (lookup session_data.session_id self.sessions)

    abbrev pub find_stored :
        String
        → RaftManager R S U D B
        → Result (Option RaftSessionData) Error × W
        → Made W R S U D B (Option (RaftSession R S U D B))
    find_stored session_id self (err e, w) = (err e, (self, w))
    find_stored session_id self (ok none, w) = (ok none, (self, w))
    find_stored session_id self (ok (some session_data), w) =
        find_local session_data (lookup session_id self.sessions) self w

    -- A new session takes its channels from tokio, and the id of its subsession from `Uuid::new_v4`.
    unfoldable pub find :
        (session_id : String)
        → RaftManager R S U D B
        → W
        → Made W R S U D B (Option (RaftSession R S U D B))
    find session_id self w = find_stored session_id self (from_hiqlite (client.get session_id w))
