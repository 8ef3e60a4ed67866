-- ===== src/Standalone/Service/Busy.antt =====
-- What a second `GET /sse` does to a standalone session whose event stream runs.
use overlay_mcp.Base.{
  String, ◌≡◌, refl, ap, ◌∙◌, Bool, true, false, none, some, List, [], ◌∷◌, All, lookup, ok, err,
}
use overlay_mcp.Core.Errors.{fatal, timeout}
use overlay_mcp.Core.Models.{Authentication, AuthorizationResult, allow, to_err_response}
use overlay_mcp.Core.Action.{Action}
use overlay_mcp.Core.Slots.{guard_loop}
use overlay_mcp.Core.General.{ensure_started}
use overlay_mcp.Server.Sse
use overlay_mcp.Standalone.{
  Session, started, put_downstream, guard_downstream, guard_stream, guard_close, is_started, cancel,
}
use overlay_mcp.Standalone.Manager.{find}
use overlay_mcp.Standalone.Service.{
  Handle, Node, Peers, put_session, find_handle, session_ops, manager_ops,
}
use overlay_mcp.Standalone.Service.Delivery.{at-some, on_drop-some, lookup-put}

module _ {R S U D B : Type 0} where
  -- Another guard has the downstream.
  abbrev pub IsLent : Session R S U D B → Type 0
  IsLent s = s.downstream.free ≡ none

  -- The session at the last look.
  abbrev pub last_look : Session R S U D B → List (Session R S U D B) → Session R S U D B
  last_look s [] = s
  last_look s (next ∷ later) = last_look next later

  last_look-IsLent :
      (s : Session R S U D B) (later : List (Session R S U D B))
      → IsLent s
      → All IsLent later
      → IsLent (last_look s later)
  last_look-IsLent s [] h hs = h
  last_look-IsLent s (next ∷ later) h (h', hs) = last_look-IsLent next later h' hs

  busy-loop :
      (s : Session R S U D B) (later : List (Session R S U D B))
      → IsLent s
      → All IsLent later
      → guard_loop (λ s. s.downstream) put_downstream s later
        ≡ (err (fatal timeout), last_look s later)
  unfolding guard_loop
  busy-loop s [] h hs = simp (h) refl
  busy-loop s (next ∷ later) h (h', hs) = simp (h) (busy-loop next later h' hs)

  guard_downstream-busy :
      (s : Session R S U D B) (later : List (Session R S U D B))
      → s.cancelled ≡ false
      → IsLent s
      → All IsLent later
      → guard_downstream s later ≡ (err (fatal timeout), last_look s later)
  unfolding guard_downstream guard_stream
  guard_downstream-busy s later c h hs = simp (c) (busy-loop s later h hs)

module _ {R S U D B Net Parts C M : Type 0} (peers : Peers R S U D B Net C M)
    (resolve : Parts → Action (Node R S U D B Net) String)
    (authorize_enter : Authentication → Action (Node R S U D B Net) AuthorizationResult)
    (encode : List (String × String) → String) (authn : Authentication) (id : String)
    (parts : Parts) where
  abbrev pub get : Action (Node R S U D B Net) String
  get =
      Sse.handler (session_ops {Parts = Parts} peers) (manager_ops peers) resolve authorize_enter
        encode authn (some id) parts

  module _ (url : String) (s : Session R S U D B) (w : Node R S U D B Net) where
    abbrev handle : Handle
    handle = record { session_id = id; upstream_url = url }

    -- A second `GET /sse` with the id of a kept session that is started, not cancelled, and whose downstream is
    -- under the guard of another stream at each of the five seconds' looks fails with a timeout, and it closes the
    -- session of that stream: the session that the last look found is cancelled under its id, while the other
    -- stream still has its downstream. The channels are as they were.
    pub get-busy :
        (stopping : Bool)
        → lookup id w.manager.sessions ≡ some s
        → s.cancelled ≡ false
        → s.connection ≡ started stopping
        → IsLent s
        → All IsLent (peers.downstream_looks w.net s)
        → lookup id w.upstream_urls ≡ some url
        → authorize_enter authn w ≡ (ok allow, w)
        → let last = last_look s (peers.downstream_looks w.net s) in
          ((get w).0 ≡ err (fatal timeout))
          × (lookup id (get w).1.manager.sessions ≡ some (cancel last))
          × ((cancel last).cancelled ≡ true)
          × IsLent (cancel last)
          × ((get w).1.net ≡ w.net)
    unfolding Sse.handler Sse.pick_session Sse.open_stream to_err_response ensure_started
    get-busy stopping kept c k h hs l a = (
      ap (λ x. x.0) whole,
      ap (λ x. lookup id x.1.manager.sessions) whole ∙ lookup-put id (cancel last) w₂,
      unfold cancel in refl,
      unfold cancel in last_look-IsLent s (peers.downstream_looks w.net s) h hs,
      ap (λ x. x.1.net) whole,
    )
      where
        last : Session R S U D B
        last = last_look s (peers.downstream_looks w.net s)

        w₁ : Node R S U D B Net
        w₁ = put_session id s w

        w₂ : Node R S U D B Net
        w₂ = put_session id last w₁

        found : find_handle id w ≡ (ok (some handle), w)
        found = unfold find_handle find in simp (kept) (simp (l) refl)

        running : is_started s ≡ true
        running = unfold is_started in simp (c) (simp (k) refl)

        started_already : (session_ops {Parts = Parts} peers).is_started handle w ≡ true
        started_already = unfold session_ops in simp (kept) running

        closes : (session_ops {Parts = Parts} peers).guard_close handle w ≡ (ok tt, w₁)
        closes =
            unfold session_ops in
            at-some handle _ w s s (ok tt) kept (unfold guard_close in simp (c) refl)

        waits :
            (session_ops {Parts = Parts} peers).guard_downstream handle w₁
            ≡ (err (fatal timeout), w₂)
        waits =
            unfold session_ops in
            at-some handle _ w₁ s last (err (fatal timeout)) (lookup-put id s w)
              (rw (guard_downstream-busy s (peers.downstream_looks w.net s) c h hs) refl)

        drops :
            (session_ops {Parts = Parts} peers).drop_close handle w₂
            ≡ put_session id (cancel last) w₂
        drops = unfold session_ops in on_drop-some handle cancel w₂ last (lookup-put id last w₁)

        whole : get w ≡ (err (fatal timeout), put_session id (cancel last) w₂)
        whole =
            unfold manager_ops in
            rw (a, found, started_already, closes, waits) (ap (λ v. (err (fatal timeout), v)) drops)
