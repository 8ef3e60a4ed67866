-- ===== src/Standalone/Service.antt =====
-- The standalone sessions as the traits of crates/overlay-mcp-core/src/general.rs: the impls of `GeneralSession` and
-- `GeneralSessionManager` in crates/overlay-mcp-standalone/src/session.rs and session_manager.rs. What an operation
-- finds after it has waited for other tasks, and what tokio and uuid give, are the record `Peers`.

pub mod Sound
pub mod Runs
pub mod Delivery
pub mod Opening
pub mod Denied
pub mod Busy
pub mod Examples
use overlay_mcp.Base.{
  String, Bool, false, Option, none, some, List, [], ◌∷◌, lookup, insert, Result, ok, err,
  if◌then◌else◌,
}
use overlay_mcp.Core.Errors.{Error, Url, already_closed_session, tokio_broadcast_error}
use overlay_mcp.Core.Action.{Action}
use overlay_mcp.Core.General.{GeneralSession, GeneralSessionManager}
use overlay_mcp.Core.Slots.{give_back}
use overlay_mcp.Core.Stream
use overlay_mcp.Standalone.{
  Session, put_upstream, put_downstream, put_bypass, guard_upstream, guard_downstream,
  guard_bypass_downstream, guard_close, cancel, is_started, start, finish_start, stop, close,
}
use overlay_mcp.Standalone.Manager.{StandaloneManager, create, find, cleanup}

-- A `StandaloneSession`: the shared state is in the manager's map until the task of a cancelled session has removed it.
pub record Handle : Type 0 where
  pub session_id : String
  pub upstream_url : Url

-- The manager, the sessions that have left its map, which handles and guards still refer to, the URL that each
-- session was created for, and the contents of the channels.
pub record Node (R S U D B Net : Type 0) : Type 0 where
  pub manager : StandaloneManager R S U D B
  pub closed : List (String × Session R S U D B)
  pub upstream_urls : List (String × Url)
  pub net : Net

pub record Fresh (R S U D B : Type 0) : Type 0 where
  pub session_id : String
  pub upstream : U
  pub downstream : D
  pub bypass_downstream : B
  pub clt_recv : R
  pub svr_send : S

-- `upstream_looks` and its like are what a `guard_…` finds at its later looks, `stop_looks` what `stop` finds,
-- and `opened` what `start` finds when its transport answers, with that answer.
pub record Peers (R S U D B Net ClientMessage ServerMessage : Type 0) : Type 0 where
  pub fresh : Net → Fresh R S U D B
  pub upstream_looks : Net → Session R S U D B → List (Session R S U D B)
  pub downstream_looks : Net → Session R S U D B → List (Session R S U D B)
  pub bypass_looks : Net → Session R S U D B → List (Session R S U D B)
  pub stop_looks : Net → Session R S U D B → List (Session R S U D B)
  pub opened : Net → Session R S U D B → Session R S U D B × Result (Unit {0}) Error
  pub send_client : U → ClientMessage → Net → Option (Unit {0}) × Net
  pub send_server : B → ServerMessage → Net → Option (Unit {0}) × Net

-- A guard stands for the stream that it holds.
abbrev pub guarded : {A X : Type 0} → Result A Error × X → Result (Unit {0}) Error × X
guarded (ok _, x) = (ok tt, x)
guarded (err e, x) = (err e, x)

-- A message goes into the stream under the guard, which is there as long as the guard is.
abbrev pub with_stream :
    {Net A : Type 0} → List A → (A → Action Net (Unit {0})) → Action Net (Unit {0})
with_stream [] send net = (err tokio_broadcast_error, net)
with_stream (a ∷ _) send net = send a net

abbrev pub handle_for : String → Option Url → Option Handle
handle_for id none = none
handle_for id (some url) = some (record { session_id = id; upstream_url = url })

module _ {R S U D B : Type 0} where
  abbrev pub is_started_found : Option (Session R S U D B) → Bool
  is_started_found none = false
  is_started_found (some session) = is_started session

  -- `start`, whose transport answers with `opened`.
  abbrev pub waited :
      (opened : Session R S U D B → Session R S U D B × Result (Unit {0}) Error)
      → Result (Unit {0}) Error × Session R S U D B
      → Result (Unit {0}) Error × Session R S U D B
  waited opened (err e, session) = (err e, session)
  waited opened (ok _, session) = let (now, answer) = opened session in finish_start now answer

  unfoldable pub start_session :
      (opened : Session R S U D B → Session R S U D B × Result (Unit {0}) Error)
      → Session R S U D B
      → Result (Unit {0}) Error × Session R S U D B
  start_session opened session = waited opened (start session)

module _ {R S U D B Net : Type 0} where
  abbrev pub put_session : String → Session R S U D B → Node R S U D B Net → Node R S U D B Net
  put_session id session w = record w {
    manager = record { sessions = insert id session w.manager.sessions };
  }

  abbrev pub kept :
      {A : Type 0}
      → String
      → Node R S U D B Net
      → Result A Error × Session R S U D B
      → Result A Error × Node R S U D B Net
  kept id w (r, session) = (r, put_session id session w)

  -- The session of a handle that is not in the map any more is cancelled: all operations refuse it.
  abbrev pub at_found :
      {A : Type 0}
      → String
      → (Session R S U D B → Result A Error × Session R S U D B)
      → Node R S U D B Net
      → Option (Session R S U D B)
      → Result A Error × Node R S U D B Net
  at_found id op w none = (err (already_closed_session id), w)
  at_found id op w (some session) = kept id w (op session)

  unfoldable pub at :
      {A : Type 0}
      → Handle
      → (Net → Session R S U D B → Result A Error × Session R S U D B)
      → Action (Node R S U D B Net) A
  at handle op w =
      at_found handle.session_id (op w.net) w (lookup handle.session_id w.manager.sessions)

  abbrev pub drop_closed :
      String
      → (Session R S U D B → Session R S U D B)
      → Node R S U D B Net
      → Option (Session R S U D B)
      → Node R S U D B Net
  drop_closed id op w none = w
  drop_closed id op w (some session) = record w { closed = insert id (op session) w.closed }

  abbrev pub drop_found :
      String
      → (Session R S U D B → Session R S U D B)
      → Node R S U D B Net
      → Option (Session R S U D B)
      → Node R S U D B Net
  drop_found id op w none = drop_closed id op w (lookup id w.closed)
  drop_found id op w (some session) = put_session id (op session) w

  -- The drop of a guard, with what the task that waits for it then does, in the map or after it.
  unfoldable pub on_drop :
      Handle → (Session R S U D B → Session R S U D B) → Node R S U D B Net → Node R S U D B Net
  on_drop handle op w =
      drop_found handle.session_id op w (lookup handle.session_id w.manager.sessions)

  abbrev pub or_closed :
      String → Node R S U D B Net → Option (Session R S U D B) → Option (Session R S U D B)
  or_closed id w none = lookup id w.closed
  or_closed id w (some session) = some session

  -- The session that a guard belongs to, in the map or after it.
  abbrev pub session_of : String → Node R S U D B Net → Option (Session R S U D B)
  session_of id w = or_closed id w (lookup id w.manager.sessions)

  abbrev pub sent :
      Node R S U D B Net
      → Result (Unit {0}) Error × Net
      → Result (Unit {0}) Error × Node R S U D B Net
  sent w (r, net) = (r, record w { net = net })

  abbrev pub send_found :
      {A : Type 0}
      → (Session R S U D B → List A)
      → (A → Action Net (Unit {0}))
      → String
      → Node R S U D B Net
      → Option (Session R S U D B)
      → Result (Unit {0}) Error × Node R S U D B Net
  send_found lent send id w none = (err tokio_broadcast_error, w)
  send_found lent send id w (some session) = sent w (with_stream (lent session) send w.net)

  unfoldable pub send_with :
      {A : Type 0}
      → Handle
      → (Session R S U D B → List A)
      → (A → Action Net (Unit {0}))
      → Action (Node R S U D B Net) (Unit {0})
  send_with handle lent send w =
      send_found lent send handle.session_id w (session_of handle.session_id w)

  abbrev pub handle_of :
      String
      → Node R S U D B Net
      → Result (Option (Session R S U D B)) Error
      → Result (Option Handle) Error
  handle_of id w (ok (some _)) = ok (handle_for id (lookup id w.upstream_urls))
  handle_of id w (ok none) = ok none
  handle_of id w (err e) = err e

  unfoldable pub find_handle : String → Action (Node R S U D B Net) (Option Handle)
  find_handle id w = (handle_of id w (find id w.manager), w)

  abbrev pub created :
      Fresh R S U D B
      → Url
      → Node R S U D B Net
      → Session R S U D B × StandaloneManager R S U D B
      → Result Handle Error × Node R S U D B Net
  created fresh url w (_, manager) = (
    ok (record { session_id = fresh.session_id; upstream_url = url }),
    record w { manager = manager; upstream_urls = insert fresh.session_id url w.upstream_urls },
  )

  abbrev pub create_from : Fresh R S U D B → Url → Action (Node R S U D B Net) Handle
  unfolding create
  create_from f url w = created f url w (
      create f.session_id f.upstream f.downstream f.bypass_downstream f.clt_recv f.svr_send
        w.manager)

  module _ {C M : Type 0} (peers : Peers R S U D B Net C M) where
    unfoldable pub create_handle : Url → Action (Node R S U D B Net) Handle
    unfolding create_from
    create_handle url w = create_from (peers.fresh w.net) url w

    unfoldable pub manager_ops : GeneralSessionManager (Node R S U D B Net) Handle
    manager_ops = record { create = create_handle; find = find_handle }

  module _ {Parts C M : Type 0} (peers : Peers R S U D B Net C M) where
    unfoldable pub session_ops : GeneralSession (Node R S U D B Net) Handle Parts C M
    session_ops = record {
      session_id = λ handle. handle.session_id;
      upstream_url = λ handle. handle.upstream_url;
      guard_upstream =
          λ handle. at handle (λ net s. guarded (guard_upstream s (peers.upstream_looks net s)));
      drop_upstream = λ handle. on_drop handle (λ s. put_upstream (give_back s.upstream) s);
      guard_downstream = λ handle.
          at handle (λ net s. guarded (guard_downstream s (peers.downstream_looks net s)));
      drop_downstream = λ handle. on_drop handle (λ s. put_downstream (give_back s.downstream) s);
      guard_bypass_downstream = λ handle.
          at handle (λ net s. guarded (guard_bypass_downstream s (peers.bypass_looks net s)));
      drop_bypass_downstream =
          λ handle. on_drop handle (λ s. put_bypass (give_back s.bypass_downstream) s);
      guard_close = λ handle. at handle (λ net s. guard_close s);
      drop_close = λ handle. on_drop handle cancel;
      is_started = λ handle w. is_started_found (lookup handle.session_id w.manager.sessions);
      start = λ handle parts. at handle (λ net s. start_session (peers.opened net) s);
      stop = λ handle. at handle (λ net s. stop s (peers.stop_looks net s));
      close = λ handle. at handle (λ net s. close s);
      send_upstream = λ handle msg.
          send_with handle (λ s. s.upstream.lent) (λ u. Stream.send peers.send_client u msg);
      send_bypass = λ handle msg.
          send_with handle (λ s. s.bypass_downstream.lent)
            (λ b. Stream.send peers.send_server b msg);
    }

  abbrev pub retire : Session R S U D B → Node R S U D B Net → Node R S U D B Net
  retire session w =
      if session.cancelled
      then record w { closed = insert session.session_id session w.closed }
      else w

  abbrev pub clean_found : Node R S U D B Net → Option (Session R S U D B) → Node R S U D B Net
  clean_found w none = w
  clean_found w (some session) = record (retire session w) { manager = cleanup session w.manager }

  -- The task of a session that waits for its token.
  unfoldable pub clean : String → Node R S U D B Net → Node R S U D B Net
  clean id w = clean_found w (lookup id w.manager.sessions)
