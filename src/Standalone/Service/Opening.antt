-- ===== src/Standalone/Service/Opening.antt =====
-- What `POST /message` does with the first message for a standalone session.
use overlay_mcp.Base.{
  String, ◌≡◌, refl, ap, ◌∙◌, Bool, false, none, some, lookup, Result, ok, err, if◌then◌else◌,
}
use overlay_mcp.Core.Errors.{Error}
use overlay_mcp.Core.Models.{Authentication, AuthorizationResult, allow}
use overlay_mcp.Core.Action.{Action}
use overlay_mcp.Core.Slots.{lone}
use overlay_mcp.Core.General.{ensure_started}
use overlay_mcp.Server.Message
use overlay_mcp.Server.Message.{JsonRpcMessage, answer, accepted}
use overlay_mcp.Standalone.{
  Session, stopped, started, is_started, start, finish_start, take, begin_start, closed_error,
}
use overlay_mcp.Standalone.Manager.{find}
use overlay_mcp.Standalone.Service.{
  Handle, Node, Peers, put_session, find_handle, start_session, waited, session_ops, manager_ops,
}
use overlay_mcp.Standalone.Service.Delivery.{post, at-some, holding, lookup-put, forward-sent}

module _ {R S U D B : Type 0} (s : Session R S U D B) (r : R) (sv : S) where
  -- The session while its transport opens, and with its relay.
  abbrev pub opening : Session R S U D B
  opening = record s { connection = started false; starting = some (r, sv) }

  abbrev pub relaying : Session R S U D B
  relaying = record s { connection = started false; starting = none; relay = some (r, sv) }

  start_session-opened :
      (opened : Session R S U D B → Session R S U D B × Result (Unit {0}) Error)
      → s.cancelled ≡ false
      → s.connection ≡ stopped r sv
      → opened opening ≡ (opening, ok tt)
      → start_session opened s ≡ (ok tt, relaying)
  unfolding start_session start take finish_start
  start_session-opened opened c k o =
      ap (waited opened) (
        ap
          (λ (b : Bool). if b then (err (closed_error s), s) else begin_start s (take s.connection))
          c
        ∙ ap (λ x. begin_start s (take x)) k)
      ∙ ap (λ x. finish_start x.0 x.1) o

module _ {R S U D B Net Parts Req Res Noti SReq SRes SNoti : Type 0}
    (peers : Peers R S U D B Net (JsonRpcMessage Req Res Noti) (JsonRpcMessage SReq SRes SNoti))
    (authorize_client_message : Authentication
      → JsonRpcMessage Req Res Noti
      → Action (Node R S U D B Net) AuthorizationResult)
    (authn : Authentication) (id : String) (parts : Parts) (json : JsonRpcMessage Req Res Noti)
    (url : String) (s : Session R S U D B) (u : U) (r : R) (sv : S) (w : Node R S U D B Net)
    (net : Net) where
  -- The first allowed message for a session that is stopped and not cancelled, where the upstream stream is free,
  -- the transport opens, and no other task uses the session meanwhile, starts a relay with the session's
  -- channel ends, is sent to the upstream once, and is answered 202.
  pub post-opens :
      lookup id w.manager.sessions ≡ some s
      → s.upstream ≡ lone u
      → s.cancelled ≡ false
      → s.connection ≡ stopped r sv
      → lookup id w.upstream_urls ≡ some url
      → authorize_client_message authn json w ≡ (ok allow, w)
      → peers.opened w.net (opening s r sv) ≡ (opening s r sv, ok tt)
      → peers.send_client u json w.net ≡ (some tt, net)
      → ((post peers authorize_client_message authn id parts json w).0 ≡ ok 202)
        × ((post peers authorize_client_message authn id parts json w).1.net ≡ net)
        × (lookup id (post peers authorize_client_message authn id parts json w).1.manager.sessions
            ≡ some (relaying s r sv))
  unfolding Message.handler answer ensure_started
  post-opens kept free c k l a o e = (
    ap (λ x. x.0) whole,
    ap (λ x. x.1.net) whole,
    ap (λ x. lookup id x.1.manager.sessions) whole
        ∙ lookup-put id (relaying s r sv)
            (record (put_session id (holding (relaying s r sv) u) w') { net = net }),
  )
    where
      handle : Handle
      handle = record { session_id = id; upstream_url = url }

      w' : Node R S U D B Net
      w' = put_session id (relaying s r sv) w

      found : find_handle id w ≡ (ok (some handle), w)
      found = unfold find_handle find in simp (kept) (simp (l) refl)

      idle : (session_ops {Parts = Parts} peers).is_started handle w ≡ false
      idle = unfold session_ops is_started in simp (kept) (simp (c) (simp (k) refl))

      opens : (session_ops peers).start handle parts w ≡ (ok tt, w')
      opens =
          unfold session_ops in
          at-some handle _ w s (relaying s r sv) (ok tt) kept
            (start_session-opened s r sv (peers.opened w.net) c k o)

      whole : post peers authorize_client_message authn id parts json w ≡ (
        ok accepted,
        put_session id
            (relaying s r sv)
            (record (put_session id (holding (relaying s r sv) u) w') { net = net }),
      )
      whole =
          unfold manager_ops in
          rw (a, found, idle, opens)
            (forward-sent peers authorize_client_message authn id parts json url (relaying s r sv) u
              w' net (lookup-put id (relaying s r sv) w) free c e)
