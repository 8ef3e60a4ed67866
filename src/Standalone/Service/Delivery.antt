-- ===== src/Standalone/Service/Delivery.antt =====
-- What `POST /message` does with a message for a standalone session, while it is open and when it has ended.
use overlay_mcp.Base.{
  String, ℕ, ◌≡◌, ◌≢◌, refl, sym, ap, ◌∙◌, Bool, true, false, none, some, List, [], ◌∷◌, lookup,
  remove, lookup-insert, lookup-remove, if_same, if_distinct, Result, ok, err,
}
use overlay_mcp.Core.Errors.{Error, already_closed_session, not_found, session_not_found}
use overlay_mcp.Core.Models.{Authentication, AuthorizationResult, allow}
use overlay_mcp.Core.Action.{Action}
use overlay_mcp.Core.Slots.{lone, give_back, guard_loop}
use overlay_mcp.Core.Stream
use overlay_mcp.Core.General.{ensure_started}
use overlay_mcp.Server.Message
use overlay_mcp.Server.Sse
use overlay_mcp.Server.Message.{JsonRpcMessage, answer, forward, accepted}
use overlay_mcp.Standalone.{
  Session, started, put_upstream, put_downstream, guard_upstream, guard_stream, is_started, start,
  cancel,
}
use overlay_mcp.Standalone.Manager.{cleanup, find}
use overlay_mcp.Standalone.Service.{
  Handle, Node, Peers, at, on_drop, put_session, send_with, find_handle, start_session, session_ops,
  manager_ops, clean,
}

module _ {R S U D B : Type 0} (s : Session R S U D B) (u : U) where
  -- The session while its upstream stream is under a guard.
  abbrev pub holding : Session R S U D B
  holding = put_upstream (record { free = none; lent = u ∷ [] }) s

  guard_upstream-lone :
      (woken : List (Session R S U D B))
      → s.cancelled ≡ false
      → s.upstream ≡ lone u
      → guard_upstream s woken ≡ (ok u, holding)
  unfolding guard_upstream guard_stream guard_loop
  guard_upstream-lone [] c e = simp (c, e) refl
  guard_upstream-lone (next ∷ woken) c e = simp (c, e) refl

  give_back-holding : s.upstream ≡ lone u → put_upstream (give_back holding.upstream) holding ≡ s
  unfolding give_back
  give_back-holding e = ap (λ slot. put_upstream slot s) (sym e)

module _ {R S U D B Net : Type 0} where
  pub at-some :
      {A : Type 0} (handle : Handle)
      (op : Net → Session R S U D B → Result A Error × Session R S U D B) (w : Node R S U D B Net)
      (s after : Session R S U D B) (r : Result A Error)
      → lookup handle.session_id w.manager.sessions ≡ some s
      → op w.net s ≡ (r, after)
      → at handle op w ≡ (r, put_session handle.session_id after w)
  unfolding at
  at-some handle op w s after r l e = simp (l) (simp (e) refl)

  pub on_drop-some :
      (handle : Handle) (op : Session R S U D B → Session R S U D B) (w : Node R S U D B Net)
      (s : Session R S U D B)
      → lookup handle.session_id w.manager.sessions ≡ some s
      → on_drop handle op w ≡ put_session handle.session_id (op s) w
  unfolding on_drop
  on_drop-some handle op w s l = simp (l) refl

  pub lookup-put :
      (id : String) (s : Session R S U D B) (w : Node R S U D B Net)
      → lookup id (put_session id s w).manager.sessions ≡ some s
  lookup-put id s w = lookup-insert id id s w.manager.sessions ∙ if_same id _ _

module _ {R S U D B Net Parts Req Res Noti SReq SRes SNoti : Type 0}
    (peers : Peers R S U D B Net (JsonRpcMessage Req Res Noti) (JsonRpcMessage SReq SRes SNoti))
    (authorize_client_message : Authentication
      → JsonRpcMessage Req Res Noti
      → Action (Node R S U D B Net) AuthorizationResult)
    (authn : Authentication) (id : String) (parts : Parts)
    (json : JsonRpcMessage Req Res Noti) where
  abbrev pub post : Action (Node R S U D B Net) ℕ
  post =
      Message.handler (session_ops peers) (manager_ops peers) authorize_client_message authn id
        parts json

  module _ (url : String) (s : Session R S U D B) (u : U) (w : Node R S U D B Net) (net : Net)
      (kept : lookup id w.manager.sessions ≡ some s) (free : s.upstream ≡ lone u)
      (open' : s.cancelled ≡ false) where
    abbrev handle : Handle
    handle = record { session_id = id; upstream_url = url }

    abbrev w₁ : Node R S U D B Net
    w₁ = put_session id (holding s u) w

    abbrev w₂ : Node R S U D B Net
    w₂ = record w₁ { net = net }

    abbrev w₃ : Node R S U D B Net
    w₃ = put_session id s w₂

    guard : (session_ops {Parts = Parts} peers).guard_upstream handle w ≡ (ok tt, w₁)
    unfolding session_ops
    guard =
        at-some handle _ w s (holding s u) (ok tt) kept
          (rw (guard_upstream-lone s u (peers.upstream_looks w.net s) open' free) refl)

    send :
        peers.send_client u json w.net ≡ (some tt, net)
        → (session_ops {Parts = Parts} peers).send_upstream handle json w₁ ≡ (ok tt, w₂)
    unfolding session_ops send_with Stream.send
    send e = simp (lookup-put id (holding s u) w) (simp (e) refl)

    give : (session_ops {Parts = Parts} peers).drop_upstream handle w₂ ≡ w₃
    unfolding session_ops
    give =
        on_drop-some handle _ w₂ (holding s u) (lookup-put id (holding s u) w)
        ∙ ap (λ s. put_session id s w₂) (give_back-holding s u free)

    pub forward-sent :
        peers.send_client u json w.net ≡ (some tt, net)
        → forward (session_ops {Parts = Parts} peers) handle json w ≡ (ok accepted, w₃)
    unfolding forward
    forward-sent e = rw guard (rw (send e) (ap (λ w. (ok accepted, w)) give))

    -- A message that the authorizer allows, for a kept session that is started, not cancelled, and whose
    -- upstream stream is free, is sent to the upstream once and answered 202; and with its guard dropped the session is as
    -- before, so that its stream is free again, and the other sessions too.
    pub post-delivers :
        (stopping : Bool)
        → s.connection ≡ started stopping
        → lookup id w.upstream_urls ≡ some url
        → authorize_client_message authn json w ≡ (ok allow, w)
        → peers.send_client u json w.net ≡ (some tt, net)
        → ((post w).0 ≡ ok 202)
          × ((post w).1.net ≡ net)
          × (lookup id (post w).1.manager.sessions ≡ some s)
          × ((other : String)
              → id ≢ other
              → lookup other (post w).1.manager.sessions ≡ lookup other w.manager.sessions)
    unfolding Message.handler answer ensure_started
    post-delivers stopping c l a e = (
      ap (λ x. x.0) whole,
      ap (λ x. x.1.net) whole,
      ap (λ x. lookup id x.1.manager.sessions) whole ∙ lookup-put id s w₂,
      λ other n.
          ap (λ x. lookup other x.1.manager.sessions) whole
          ∙ lookup-insert id other s w₂.manager.sessions
          ∙ if_distinct id other n _ _
          ∙ lookup-insert id other (holding s u) w.manager.sessions
          ∙ if_distinct id other n _ _,
    )
      where
        found : find_handle id w ≡ (ok (some handle), w)
        found = unfold find_handle find in simp (kept) (simp (l) refl)

        running : is_started s ≡ true
        running = unfold is_started in simp (open') (simp (c) refl)

        started_already : (session_ops {Parts = Parts} peers).is_started handle w ≡ true
        started_already = unfold session_ops in simp (kept) running

        whole : post w ≡ (ok accepted, w₃)
        whole = unfold manager_ops in rw (a, found, started_already) (forward-sent e)

  module _ (resolve : Parts → Action (Node R S U D B Net) String)
      (authorize_enter : Authentication → Action (Node R S U D B Net) AuthorizationResult)
      (encode : List (String × String) → String) (url : String) (s : Session R S U D B)
      (w : Node R S U D B Net) where
    -- The node after the event stream of the session has ended.
    abbrev pub ended : Node R S U D B Net
    ended =
        Sse.end_stream (session_ops {Parts = Parts} peers) (manager_ops peers) resolve
          authorize_enter encode (record { session_id = id; upstream_url = url }) w

    abbrev dropped : Session R S U D B
    dropped = put_downstream (give_back s.downstream) (cancel s)

    ended-lem :
        lookup id w.manager.sessions ≡ some s
        → ended ≡ put_session id dropped (put_session id (cancel s) w)
    unfolding Sse.end_stream session_ops cancel
    ended-lem kept =
        let handle : Handle = record { session_id = id; upstream_url = url } in
        let give : Session R S U D B → Session R S U D B =
          λ s. put_downstream (give_back s.downstream) s in
        ap (on_drop handle give) (on_drop-some handle cancel w s kept)
        ∙ on_drop-some handle give (put_session id (cancel s) w) (cancel s)
            (lookup-put id (cancel s) w)

    abbrev closed : Node R S U D B Net
    closed = put_session id dropped (put_session id (cancel s) w)

    lookup-closed : lookup id closed.manager.sessions ≡ some dropped
    lookup-closed = lookup-put id dropped (put_session id (cancel s) w)

    start-closed :
        (session_ops peers).start (record { session_id = id; upstream_url = url }) parts closed
        ≡ (err (already_closed_session s.session_id), put_session id dropped closed)
    unfolding session_ops
    start-closed =
        at-some (record { session_id = id; upstream_url = url }) _ closed dropped dropped
          (err (already_closed_session s.session_id)) lookup-closed
          (unfold start_session start cancel in refl)

    post-closed :
        lookup id w.upstream_urls ≡ some url
        → authorize_client_message authn json closed ≡ (ok allow, closed)
        → post closed ≡ (err (already_closed_session s.session_id), put_session id dropped closed)
    unfolding Message.handler ensure_started manager_ops
    post-closed l a = rw (a, found, idle, start-closed) refl
      where
        handle : Handle
        handle = record { session_id = id; upstream_url = url }

        found : find_handle id closed ≡ (ok (some handle), closed)
        found = unfold find_handle find in simp (lookup-closed) (simp (l) refl)

        idle : (session_ops {Parts = Parts} peers).is_started handle closed ≡ false
        idle = unfold session_ops is_started cancel in simp (lookup-closed) refl

    clean-closed : s.session_id ≡ id → lookup id (clean id closed).manager.sessions ≡ none
    unfolding clean cleanup cancel
    clean-closed e = simp (lookup-closed) (
        ap (λ k. lookup id (remove k closed.manager.sessions)) e
        ∙ lookup-remove id id closed.manager.sessions
        ∙ if_same id _ _)

    -- Once the event stream of a session has ended and its guards are dropped, a message for it that the authorizer allows fails,
    -- as closed while the session is still kept and as not found once it is cleaned up; and nothing is sent.
    pub post-ended :
        lookup id w.manager.sessions ≡ some s
        → s.session_id ≡ id
        → lookup id w.upstream_urls ≡ some url
        → ((v : Node R S U D B Net) → authorize_client_message authn json v ≡ (ok allow, v))
        → ((post ended).0 ≡ err (already_closed_session id))
          × ((post ended).1.net ≡ w.net)
          × (post (clean id ended) ≡ (err (not_found (session_not_found id)), clean id ended))
          × ((clean id ended).net ≡ w.net)
    unfolding cancel
    post-ended kept same l a = rw (ended-lem kept) (
      ap (λ x. x.0) (post-closed l (a closed)) ∙ ap (λ i. err (already_closed_session i)) same,
      ap (λ x. x.1.net) (post-closed l (a closed)),
      missing,
      unfold clean in simp (lookup-closed) refl,
    )
      where
        found : find_handle id (clean id closed) ≡ (ok none, clean id closed)
        found = unfold find_handle find in simp (clean-closed same) refl

        missing : post (clean id closed) ≡ (err (not_found (session_not_found id)), clean id closed)
        missing = unfold Message.handler manager_ops in rw (a (clean id closed), found) refl
