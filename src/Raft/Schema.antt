-- ===== src/Raft/Schema.antt =====
-- crates/overlay-mcp-raft/src/raft_schema.rs, with `RaftSessionData` of session.rs, and what the crate
-- asks hiqlite for. The cache `RaftSchema::Session` is the only one.
use overlay_mcp.Base.{String, Option, none, some, Result, ok, err}
use overlay_mcp.Core.Errors.{Error, Url, hiqlite_error, fatal, timeout}

pub record RaftSessionData : Type 0 where
  pub session_id : String
  pub upstream_url : Url
  pub main_subsession_id : Option String

pub record EventNotifyToMainSession : Type 0 where
  pub session_id : String
  pub raw_json : String

pub record EventNotifyToSubSession : Type 0 where
  pub session_id : String
  pub raw_json : String

pub data RaftSchemaEvent : Type 0 where
  delete_session : (session_id : String) → RaftSchemaEvent
  new_main_session : (session_id subsession_id : String) → RaftSchemaEvent
  notify_to_sub_session : EventNotifyToSubSession → RaftSchemaEvent
  notify_to_main_session : EventNotifyToMainSession → RaftSchemaEvent

-- serde_json's `to_string` and `from_str` at a type of messages; `none` is their error.
pub record Serde (M : Type 0) : Type 0 where
  pub to_string : M → Option String
  pub from_str : String → Option M

module _ {M : Type 0} (serde : Serde M) where
  abbrev main_event : String → Option String → Option RaftSchemaEvent
  main_event session_id none = none
  main_event session_id (some raw_json) =
      some (notify_to_main_session (record { session_id = session_id; raw_json = raw_json }))

  abbrev sub_event : String → Option String → Option RaftSchemaEvent
  sub_event session_id none = none
  sub_event session_id (some raw_json) =
      some (notify_to_sub_session (record { session_id = session_id; raw_json = raw_json }))

  -- `RaftSchemaEvent::notify_to_main_session` and `notify_to_sub_session`; `none` is the panic of `unwrap`.
  unfoldable pub event_to_main : (session_id : String) → M → Option RaftSchemaEvent
  event_to_main session_id event = main_event session_id (serde.to_string event)

  unfoldable pub event_to_sub : (session_id : String) → M → Option RaftSchemaEvent
  event_to_sub session_id event = sub_event session_id (serde.to_string event)

  unfoldable pub to_client_json_rpc_message : EventNotifyToMainSession → Option M
  to_client_json_rpc_message self = serde.from_str self.raw_json

  unfoldable pub to_server_json_rpc_message : EventNotifyToSubSession → Option M
  to_server_json_rpc_message self = serde.from_str self.raw_json

-- hiqlite's client on a world `W`: the cluster's cache, its locks and its notifications. `lock` is `none`
-- where five seconds go by without it; the other errors are hiqlite's.
pub record RaftClient (W : Type 0) : Type 0 where
  pub lock : String → W → Option (Result (Unit {0}) String) × W
  pub drop_lock : String → W → W
  pub get : String → W → Result (Option RaftSessionData) String × W
  pub put : String → RaftSessionData → W → Result (Unit {0}) String × W
  pub delete : String → W → Result (Unit {0}) String × W
  pub notify : RaftSchemaEvent → W → Result (Unit {0}) String × W

-- `?` on an answer of hiqlite
abbrev pub from_hiqlite : {W A : Type 0} → Result A String × W → Result A Error × W
from_hiqlite (ok a, w) = (ok a, w)
from_hiqlite (err e, w) = (err (hiqlite_error e), w)

abbrev pub locked :
    {W : Type 0} → Option (Result (Unit {0}) String) × W → Result (Unit {0}) Error × W
locked (none, w) = (err (fatal timeout), w)
locked (some (err e), w) = (err (hiqlite_error e), w)
locked (some (ok _), w) = (ok tt, w)
