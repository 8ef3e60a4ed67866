-- ===== src/Standalone/Service/Denied.antt =====
-- What `POST /message` does with a message for a standalone session that the authorizer denies.
use overlay_mcp.Base.{
  String, ◌≡◌, ◌≢◌, refl, sym, ap, ◌∙◌, Bool, true, false, none, some, List, [], ◌∷◌, lookup,
  lookup-insert, if_distinct, ok,
}
use overlay_mcp.Core.Models.{Authentication, AuthorizationResult, deny}
use overlay_mcp.Core.Action.{Action}
use overlay_mcp.Core.Slots.{lone, give_back, guard_loop}
use overlay_mcp.Core.Stream
use overlay_mcp.Core.General.{ensure_started}
use overlay_mcp.Server.Message
use overlay_mcp.Server.Message.{JsonRpcMessage, denial, refuse, answer, forward, accepted}
use overlay_mcp.Standalone.{
  Session, started, put_bypass, guard_bypass_downstream, guard_stream, is_started,
}
use overlay_mcp.Standalone.Manager.{find}
use overlay_mcp.Standalone.Service.{
  Handle, Node, Peers, put_session, send_with, find_handle, session_ops, manager_ops,
}
use overlay_mcp.Standalone.Service.Delivery.{
  post, at-some, on_drop-some, holding, lookup-put, forward-sent,
}

module _ {R S U D B : Type 0} (s : Session R S U D B) (b : B) where
  -- The session while its bypass stream is under a guard.
  abbrev holding_bypass : Session R S U D B
  holding_bypass = put_bypass (record { free = none; lent = b ∷ [] }) s

  guard_bypass_downstream-lone :
      (later : List (Session R S U D B))
      → s.cancelled ≡ false
      → s.bypass_downstream ≡ lone b
      → guard_bypass_downstream s later ≡ (ok b, holding_bypass)
  unfolding guard_bypass_downstream guard_stream guard_loop
  guard_bypass_downstream-lone [] c e = simp (c, e) refl
  guard_bypass_downstream-lone (next ∷ later) c e = simp (c, e) refl

  give_back-holding_bypass :
      s.bypass_downstream ≡ lone b
      → put_bypass (give_back holding_bypass.bypass_downstream) holding_bypass ≡ s
  unfolding give_back
  give_back-holding_bypass e = ap (λ slot. put_bypass slot s) (sym e)

module _ {R S U D B Net Parts Req Res Noti SReq SRes SNoti : Type 0}
    (peers : Peers R S U D B Net (JsonRpcMessage Req Res Noti) (JsonRpcMessage SReq SRes SNoti))
    (authorize_client_message : Authentication
      → JsonRpcMessage Req Res Noti
      → Action (Node R S U D B Net) AuthorizationResult)
    (authn : Authentication) (id : String) (parts : Parts) (json : JsonRpcMessage Req Res Noti)
    (url : String) (s : Session R S U D B) (u : U) (b : B) (w : Node R S U D B Net) (told net : Net)
    (kept : lookup id w.manager.sessions ≡ some s) (open' : s.cancelled ≡ false) where
  abbrev handle : Handle
  handle = record { session_id = id; upstream_url = url }

  abbrev w₁ : Node R S U D B Net
  w₁ = put_session id (holding_bypass s b) w

  abbrev w₂ : Node R S U D B Net
  w₂ = record w₁ { net = told }

  -- The node once the client has been told.
  abbrev w₃ : Node R S U D B Net
  w₃ = put_session id s w₂

  refuse-sent :
      s.bypass_downstream ≡ lone b
      → peers.send_server b (denial json) w.net ≡ (some tt, told)
      → refuse (session_ops {Parts = Parts} peers) handle json w ≡ (ok tt, w₃)
  unfolding refuse
  refuse-sent free e = rw guard (rw send (ap (λ w. (ok tt, w)) give))
    where
      guard : (session_ops {Parts = Parts} peers).guard_bypass_downstream handle w ≡ (ok tt, w₁)
      guard =
          unfold session_ops in
          at-some handle _ w s (holding_bypass s b) (ok tt) kept
            (rw (guard_bypass_downstream-lone s b (peers.bypass_looks w.net s) open' free) refl)

      send : (session_ops {Parts = Parts} peers).send_bypass handle (denial json) w₁ ≡ (ok tt, w₂)
      send =
          unfold session_ops send_with Stream.send in
          simp (lookup-put id (holding_bypass s b) w) (simp (e) refl)

      give : (session_ops {Parts = Parts} peers).drop_bypass_downstream handle w₂ ≡ w₃
      give =
          unfold session_ops in
          on_drop-some handle _ w₂ (holding_bypass s b) (lookup-put id (holding_bypass s b) w)
          ∙ ap (λ s. put_session id s w₂) (give_back-holding_bypass s b free)

  -- A message that the authorizer denies, for a kept session that is started, not cancelled, and whose upstream
  -- and bypass streams are free: the client is told once over the bypass that it is not allowed, and then
  -- the message itself is sent to the upstream once and answered 202, as one that is allowed. All
  -- sessions are as before.
  pub post-denied :
      (stopping : Bool)
      → s.upstream ≡ lone u
      → s.bypass_downstream ≡ lone b
      → s.connection ≡ started stopping
      → lookup id w.upstream_urls ≡ some url
      → authorize_client_message authn json w ≡ (ok deny, w)
      → peers.send_server b (denial json) w.net ≡ (some tt, told)
      → peers.send_client u json told ≡ (some tt, net)
      → let after = post peers authorize_client_message authn id parts json w in
        (after.0 ≡ ok 202)
        × (after.1.net ≡ net)
        × (lookup id after.1.manager.sessions ≡ some s)
        × ((other : String)
            → id ≢ other
            → lookup other after.1.manager.sessions ≡ lookup other w.manager.sessions)
  unfolding Message.handler answer ensure_started
  post-denied stopping free free' c l a e e' = (
    ap (λ x. x.0) whole,
    ap (λ x. x.1.net) whole,
    ap (λ x. lookup id x.1.manager.sessions) whole
        ∙ lookup-put id s (record (put_session id (holding s u) w₃) { net = net }),
    λ other n.
        ap (λ x. lookup other x.1.manager.sessions) whole
        ∙ passes other n s (record (put_session id (holding s u) w₃) { net = net })
        ∙ passes other n (holding s u) w₃
        ∙ passes other n s w₂
        ∙ passes other n (holding_bypass s b) w,
  )
    where
      passes :
          (other : String)
          → id ≢ other
          → (x : Session R S U D B) (v : Node R S U D B Net)
          → lookup other (put_session id x v).manager.sessions ≡ lookup other v.manager.sessions
      passes other n x v = lookup-insert id other x v.manager.sessions ∙ if_distinct id other n _ _

      found : find_handle id w ≡ (ok (some handle), w)
      found = unfold find_handle find in simp (kept) (simp (l) refl)

      running : is_started s ≡ true
      running = unfold is_started in simp (open') (simp (c) refl)

      started_already : (session_ops {Parts = Parts} peers).is_started handle w ≡ true
      started_already = unfold session_ops in simp (kept) running

      whole :
          post peers authorize_client_message authn id parts json w
          ≡ (ok accepted, put_session id s (record (put_session id (holding s u) w₃) { net = net }))
      whole =
          unfold manager_ops in
          rw (a, found, started_already)
            (rw (refuse-sent free' e) (
              forward-sent peers authorize_client_message authn id parts json url s u w₃ net
                (lookup-put id s w₂) free open' e'))
