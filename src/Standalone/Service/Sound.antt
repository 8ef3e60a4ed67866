-- ===== src/Standalone/Service/Sound.antt =====
-- What the operations of the standalone sessions keep of them.
use overlay_mcp.Base.{
  String, ◌≡◌, refl, Bool, true, false, Option, none, some, List, All, lookup, lookup-All,
  insert-All, Result, ok, err, if◌then◌else◌,
}
use overlay_mcp.Core.Errors.{Error, Url}
use overlay_mcp.Core.Action.{Action}
use overlay_mcp.Server.Invariant.{Keeps, KeepsDrop, Invariant}
use overlay_mcp.Standalone.{
  Session, Connection, new, take, begin_start, put_upstream, put_downstream, put_bypass,
  guard_upstream, guard_downstream, guard_bypass_downstream, guard_close, cancel, start,
  closed_error,
}
use overlay_mcp.Standalone.Manager.{create}
use overlay_mcp.Standalone.Moves.{
  Move, Moves, stays, moves, join, guard_stream-Moves, give_back-Moves,
}
use overlay_mcp.Standalone.Service.{
  Handle, Node, Fresh, Peers, guarded, at, at_found, on_drop, start_session, waited, send_with,
  send_found, drop_closed, put_session, session_of, create_handle, find_handle, session_ops,
  manager_ops,
}

-- What other tasks do to a session while an operation waits are moves of it; and no other task ends the
-- start of a transport.
pub record ArePeers {R S U D B Net C M : Type 0} (peers : Peers R S U D B Net C M) : Type 0 where
  pub upstream_looks :
      (net : Net) (s : Session R S U D B) → All (Moves s) (peers.upstream_looks net s)
  pub downstream_looks :
      (net : Net) (s : Session R S U D B) → All (Moves s) (peers.downstream_looks net s)
  pub bypass_looks : (net : Net) (s : Session R S U D B) → All (Moves s) (peers.bypass_looks net s)
  pub opened :
      (net : Net) (s : Session R S U D B) (waiting : R × S)
      → s.starting ≡ some waiting
      → Moves s (peers.opened net s).0 × ((peers.opened net s).0.starting ≡ some waiting)

module _ {R S U D B : Type 0} where
  guarded-Moves :
      {A : Type 0} (s : Session R S U D B) (x : Result A Error × Session R S U D B)
      → Moves s x.1
      → Moves s (guarded x).1
  guarded-Moves s (ok a, after) h = h
  guarded-Moves s (err e, after) h = h

  waited-Moves :
      (opened : Session R S U D B → Session R S U D B × Result (Unit {0}) Error)
      → ((s : Session R S U D B) (waiting : R × S)
          → s.starting ≡ some waiting
          → Moves s (opened s).0 × ((opened s).0.starting ≡ some waiting))
      → (s : Session R S U D B) (c : Bool) (o : Option (R × S) × Connection R S)
      → Moves s (if c then (err (closed_error s), s) else begin_start s o).1
      → Moves s (waited opened (if c then (err (closed_error s), s) else begin_start s o)).1
  waited-Moves opened h s true o m = m
  waited-Moves opened h s false (none, c) m = m
  waited-Moves opened h s false (some ends, c) m =
      let begun : Session R S U D B = record s { connection = c; starting = some ends } in
      let (a, e) = h begun ends refl in moves (join m a) (Move.opens e (opened begun).1)

  start_session-Moves :
      (opened : Session R S U D B → Session R S U D B × Result (Unit {0}) Error)
      → ((s : Session R S U D B) (waiting : R × S)
          → s.starting ≡ some waiting
          → Moves s (opened s).0 × ((opened s).0.starting ≡ some waiting))
      → (s : Session R S U D B) → Moves s (start_session opened s).1
  unfolding start_session start
  start_session-Moves opened h s =
      waited-Moves opened h s s.cancelled (take s.connection) (moves stays Move.starts)

  guard_close-Moves : (s : Session R S U D B) → Moves s (guard_close s).1
  unfolding guard_close
  guard_close-Moves s = go s.cancelled
    where
      go :
          (b : Bool)
          → Moves s
              (if◌then◌else◌ {A = Result (Unit {0}) Error × Session R S U D B} b
                (err (closed_error s), s)
                (ok tt, s)).1
      go true = stays
      go false = stays

  -- A new session under an id.
  abbrev pub newly : String → Fresh R S U D B → Session R S U D B
  newly id f = new id f.upstream f.downstream f.bypass_downstream f.clt_recv f.svr_send

module _ {R S U D B Net C M : Type 0} (peers : Peers R S U D B Net C M) where
  -- The session stands under its own id, and has come by moves from a session that was created.
  abbrev pub Entry : String × Session R S U D B → Type 0
  Entry (id, session) =
      (net : Net) × ((peers.fresh net).session_id ≡ id) × Moves (newly id (peers.fresh net)) session

  abbrev pub Reached : Node R S U D B Net → Type 0
  Reached w = All Entry w.manager.sessions

  pub onward-Entry :
      (id : String) (before after : Session R S U D B)
      → Moves before after
      → Entry (id, before)
      → Entry (id, after)
  onward-Entry id before after m (net, e, h) = (net, e, join h m)

  at_found-Reached :
      {A : Type 0} (id : String) (op : Session R S U D B → Result A Error × Session R S U D B)
      (w : Node R S U D B Net) (o : Option (Session R S U D B))
      → lookup id w.manager.sessions ≡ o
      → ((s : Session R S U D B) → Moves s (op s).1)
      → Reached w
      → Reached (at_found id op w o).1
  at_found-Reached id op w none e m h = h
  at_found-Reached id op w (some s) e m h =
      insert-All Entry id (op s).1 w.manager.sessions
        (onward-Entry id s (op s).1 (m s) (lookup-All Entry id w.manager.sessions s h e)) h

  at-Reached :
      {A : Type 0} (handle : Handle)
      (op : Net → Session R S U D B → Result A Error × Session R S U D B)
      → ((net : Net) (s : Session R S U D B) → Moves s (op net s).1)
      → Keeps Reached (at handle op)
  unfolding at
  at-Reached handle op m w h =
      at_found-Reached handle.session_id (op w.net) w (lookup handle.session_id w.manager.sessions)
        refl (m w.net) h

  on_drop-Reached :
      (handle : Handle) (op : Session R S U D B → Session R S U D B)
      → ((s : Session R S U D B) → Moves s (op s))
      → KeepsDrop Reached (on_drop handle op)
  unfolding on_drop
  on_drop-Reached handle op m w h =
      go (lookup handle.session_id w.manager.sessions) refl (lookup handle.session_id w.closed)
    where
      go :
          (o : Option (Session R S U D B))
          → lookup handle.session_id w.manager.sessions ≡ o
          → (c : Option (Session R S U D B))
          → Reached (elim o [
            | none ↦ drop_closed handle.session_id op w c
            | some s ↦ put_session handle.session_id (op s) w
          ])
      go none e none = h
      go none e (some _) = h
      go (some s) e c =
          insert-All Entry handle.session_id (op s) w.manager.sessions
            (onward-Entry handle.session_id s (op s) (m s)
              (lookup-All Entry handle.session_id w.manager.sessions s h e))
            h

  send_found-Reached :
      {A : Type 0} (lent : Session R S U D B → List A) (send : A → Action Net (Unit {0}))
      (id : String) (w : Node R S U D B Net) (o : Option (Session R S U D B))
      → Reached w
      → Reached (send_found lent send id w o).1
  send_found-Reached lent send id w none h = h
  send_found-Reached lent send id w (some s) h = h

  send_with-Reached :
      {A : Type 0} (handle : Handle) (lent : Session R S U D B → List A)
      (send : A → Action Net (Unit {0}))
      → Keeps Reached (send_with handle lent send)
  unfolding send_with
  send_with-Reached handle lent send w =
      send_found-Reached lent send handle.session_id w (session_of handle.session_id w)

  create_handle-Reached : (url : Url) → Keeps Reached (create_handle peers url)
  unfolding create_handle create
  create_handle-Reached url w h =
      let f = peers.fresh w.net in
      insert-All Entry f.session_id
        (new f.session_id f.upstream f.downstream f.bypass_downstream f.clt_recv f.svr_send)
        w.manager.sessions (w.net, refl, stays) h

  module _ {Parts : Type 0} (are : ArePeers peers) where
    pub session_ops-Invariant :
        Invariant (session_ops {Parts = Parts} peers) (manager_ops peers) Reached
    unfolding session_ops manager_ops guard_upstream guard_downstream guard_bypass_downstream cancel
        find_handle
    session_ops-Invariant = record {
      guard_upstream = λ handle. at-Reached handle _ (λ net s. guarded-Moves s _ (
          guard_stream-Moves (λ s. s.upstream) put_upstream (λ s slot t. Move.upstream t) s
            (peers.upstream_looks net s) (are.upstream_looks net s)));
      drop_upstream = λ handle. on_drop-Reached handle _ (λ s.
          give_back-Moves (λ s. s.upstream) put_upstream (λ s slot t. Move.upstream t) s refl);
      guard_downstream = λ handle. at-Reached handle _ (λ net s. guarded-Moves s _ (
          guard_stream-Moves (λ s. s.downstream) put_downstream (λ s slot t. Move.downstream t) s
            (peers.downstream_looks net s) (are.downstream_looks net s)));
      drop_downstream = λ handle. on_drop-Reached handle _ (λ s.
          give_back-Moves (λ s. s.downstream) put_downstream (λ s slot t. Move.downstream t) s
            refl);
      guard_bypass_downstream = λ handle. at-Reached handle _ (λ net s. guarded-Moves s _ (
          guard_stream-Moves (λ s. s.bypass_downstream) put_bypass (λ s slot t. Move.bypass t) s
            (peers.bypass_looks net s) (are.bypass_looks net s)));
      drop_bypass_downstream = λ handle. on_drop-Reached handle _ (λ s.
          give_back-Moves (λ s. s.bypass_downstream) put_bypass (λ s slot t. Move.bypass t) s refl);
      guard_close = λ handle. at-Reached handle _ (λ net s. guard_close-Moves s);
      drop_close = λ handle. on_drop-Reached handle _ (λ s. moves stays Move.cancels);
      start = λ handle parts.
          at-Reached handle _ (λ net s. start_session-Moves (peers.opened net) (are.opened net) s);
      send_upstream = λ handle msg. send_with-Reached handle _ _;
      send_bypass = λ handle msg. send_with-Reached handle _ _;
      create = create_handle-Reached;
      find = λ id w h. h;
    }
