-- ===== src/Sessions.antt =====
-- crates/overlay-mcp-session-manager/src/lib.rs: sessions and managers of the kind that the configuration chooses,
-- over the records of operations that each kind is in Core/General.antt.
pub mod Mapped
pub mod Chosen
pub mod Examples
use mathlib.Core.Option
use overlay_mcp.Base.{String, Bool, Option, none, some, Result, ok, err}
use overlay_mcp.Core.Errors.{Error, Url}
use overlay_mcp.Core.Cluster.{ClusterConfig}
use overlay_mcp.Core.Action.{Action, continue, pure, ◌>>=◌}
use overlay_mcp.Core.General.{GeneralSession, GeneralSessionManager}

pub data SessionManager (SM RM : Type 0) : Type 0 where
  standalone : SM → SessionManager SM RM
  raft : RM → SessionManager SM RM

pub data Session (S R : Type 0) : Type 0 where
  standalone : S → Session S R
  raft : R → Session S R

-- The constructors of the two managers are `new_standalone` and `new_raft`.
unfoldable pub new :
    {W SM RM RaftConfig : Type 0} (new_standalone : SM) (new_raft : RaftConfig → Action W RM)
    → ClusterConfig RaftConfig
    → Action W (SessionManager SM RM)
new new_standalone new_raft ClusterConfig.none = pure (SessionManager.standalone new_standalone)
new new_standalone new_raft (ClusterConfig.raft config) =
    new_raft config >>= λ manager. pure (SessionManager.raft manager)

-- `map` on a result, and on an option in it.
abbrev pub mapped : {W A B : Type 0} → (A → B) → Result A Error × W → Result B Error × W
mapped f (ok a, w) = (ok (f a), w)
mapped f (err e, w) = (err e, w)

module _ {W S R Parts ClientMessage ServerMessage : Type 0}
    (s : GeneralSession W S Parts ClientMessage ServerMessage)
    (r : GeneralSession W R Parts ClientMessage ServerMessage) where
  -- `match self { Self::Standalone(session) => .., Self::Raft(session) => .. }`
  abbrev pub either {ℓ} : {A : Type ℓ} → (S → A) → (R → A) → Session S R → A
  either f g (Session.standalone session) = f session
  either f g (Session.raft session) = g session

  -- `impl GeneralSession for Session`
  unfoldable pub session_ops : GeneralSession W (Session S R) Parts ClientMessage ServerMessage
  session_ops = record {
    session_id = either s.session_id r.session_id;
    upstream_url = either s.upstream_url r.upstream_url;
    guard_upstream = either s.guard_upstream r.guard_upstream;
    drop_upstream = either s.drop_upstream r.drop_upstream;
    guard_downstream = either s.guard_downstream r.guard_downstream;
    drop_downstream = either s.drop_downstream r.drop_downstream;
    guard_bypass_downstream = either s.guard_bypass_downstream r.guard_bypass_downstream;
    drop_bypass_downstream = either s.drop_bypass_downstream r.drop_bypass_downstream;
    guard_close = either s.guard_close r.guard_close;
    drop_close = either s.drop_close r.drop_close;
    is_started = either s.is_started r.is_started;
    start = either s.start r.start;
    stop = either s.stop r.stop;
    close = either s.close r.close;
    send_upstream = either s.send_upstream r.send_upstream;
    send_bypass = either s.send_bypass r.send_bypass;
  }

module _ {W S R SM RM : Type 0} (s : SM → GeneralSessionManager W S)
    (r : RM → GeneralSessionManager W R) where
  -- `impl GeneralSessionManager for SessionManager`
  unfoldable pub manager_ops : SessionManager SM RM → GeneralSessionManager W (Session S R)
  manager_ops (SessionManager.standalone manager) = record {
    create = λ upstream_url w. mapped Session.standalone ((s manager).create upstream_url w);
    find = λ session_id w. mapped (Option.map Session.standalone) ((s manager).find session_id w);
  }
  manager_ops (SessionManager.raft manager) = record {
    create = λ upstream_url w. mapped Session.raft ((r manager).create upstream_url w);
    find = λ session_id w. mapped (Option.map Session.raft) ((r manager).find session_id w);
  }
