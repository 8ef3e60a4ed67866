-- ===== src/Server/Invariant.antt =====
-- What the handlers of `POST /message` and `GET /sse`, and the end of an event stream, keep of the state that
-- the operations of the sessions and of their manager keep.
use overlay_mcp.Base.{
  if◌then◌else◌, List, String, ℕ, Bool, true, false, Option, none, some, Result, ok, err,
}
use overlay_mcp.Core.Errors.{Error, Url, not_found, session_not_found}
use overlay_mcp.Core.Models.{
  Authentication, AuthorizationResult, allow, deny, unauthorized, to_err_response,
}
use overlay_mcp.Core.Action.{Action, pure, fail, lift, ◌>>=◌, ◌>>◌, dropping}
use overlay_mcp.Core.Runs.{>>=-keeps}
use overlay_mcp.Core.General.{GeneralSession, GeneralSessionManager, ensure_started}
use overlay_mcp.Server.Message
use overlay_mcp.Server.Message.{JsonRpcMessage, refuse, answer, forward, denial, accepted}
use overlay_mcp.Server.Sse
use overlay_mcp.Server.Sse.{found_or, pick_session, open_stream, end_stream, unless_ok, endpoint}

abbrev pub Keeps : {W A : Type 0} → (W → Type 0) → Action W A → Type 0
Keeps {W} P m = (w : W) → P w → P (m w).1

abbrev pub KeepsDrop : {W : Type 0} → (W → Type 0) → (W → W) → Type 0
KeepsDrop {W} P drop = (w : W) → P w → P (drop w)

-- Each operation keeps `P`, whether it fails or not.
pub record Invariant {W Session Parts C M : Type 0} (g : GeneralSession W Session Parts C M)
    (m : GeneralSessionManager W Session) (P : W → Type 0) : Type 0 where
  pub guard_upstream : (s : Session) → Keeps P (g.guard_upstream s)
  pub drop_upstream : (s : Session) → KeepsDrop P (g.drop_upstream s)
  pub guard_downstream : (s : Session) → Keeps P (g.guard_downstream s)
  pub drop_downstream : (s : Session) → KeepsDrop P (g.drop_downstream s)
  pub guard_bypass_downstream : (s : Session) → Keeps P (g.guard_bypass_downstream s)
  pub drop_bypass_downstream : (s : Session) → KeepsDrop P (g.drop_bypass_downstream s)
  pub guard_close : (s : Session) → Keeps P (g.guard_close s)
  pub drop_close : (s : Session) → KeepsDrop P (g.drop_close s)
  pub start : (s : Session) (parts : Parts) → Keeps P (g.start s parts)
  pub send_upstream : (s : Session) (msg : C) → Keeps P (g.send_upstream s msg)
  pub send_bypass : (s : Session) (msg : M) → Keeps P (g.send_bypass s msg)
  pub create : (url : Url) → Keeps P (m.create url)
  pub find : (id : String) → Keeps P (m.find id)

-- A single operation, as a step of the state.
pub data Operation {W Session Parts C M : Type 0} (g : GeneralSession W Session Parts C M)
    (m : GeneralSessionManager W Session) (w : W) : W → Type 0 where
  guards_upstream : (s : Session) → Operation g m w (g.guard_upstream s w).1
  drops_upstream : (s : Session) → Operation g m w (g.drop_upstream s w)
  guards_downstream : (s : Session) → Operation g m w (g.guard_downstream s w).1
  drops_downstream : (s : Session) → Operation g m w (g.drop_downstream s w)
  guards_bypass : (s : Session) → Operation g m w (g.guard_bypass_downstream s w).1
  drops_bypass : (s : Session) → Operation g m w (g.drop_bypass_downstream s w)
  guards_close : (s : Session) → Operation g m w (g.guard_close s w).1
  drops_close : (s : Session) → Operation g m w (g.drop_close s w)
  starts : (s : Session) (parts : Parts) → Operation g m w (g.start s parts w).1
  sends_upstream : (s : Session) (msg : C) → Operation g m w (g.send_upstream s msg w).1
  sends_bypass : (s : Session) (msg : M) → Operation g m w (g.send_bypass s msg w).1
  creates : (url : Url) → Operation g m w (m.create url w).1
  finds : (id : String) → Operation g m w (m.find id w).1

module _ {W A B : Type 0} (P : W → Type 0) where
  pub >>=-Keeps :
      (m : Action W A) (f : A → Action W B)
      → Keeps P m
      → ((a : A) → Keeps P (f a))
      → Keeps P (m >>= f)
  >>=-Keeps m f p q w h = >>=-keeps P m f w (p w h) (λ a _ k. q a (m w).1 k)

module _ {W A : Type 0} (P : W → Type 0) where
  dropping-Keeps :
      (drop : W → W) (body : Action W A)
      → KeepsDrop P drop
      → Keeps P body
      → Keeps P (dropping drop body)
  dropping-Keeps drop body p q w h = p (body w).1 (q w h)

  unless_ok-kept :
      (drop : W → W) (x : Result A Error × W) → KeepsDrop P drop → P x.1 → P (unless_ok drop x).1
  unless_ok-kept drop (ok a, w) p h = h
  unless_ok-kept drop (err e, w) p h = p w h

module _ {W Session Parts C M : Type 0} (g : GeneralSession W Session Parts C M)
    (m : GeneralSessionManager W Session) (P : W → Type 0) (laws : Invariant g m P) where
  pub Operation-keeps : (w after : W) → Operation g m w after → P w → P after
  Operation-keeps w _ (guards_upstream s) h = laws.guard_upstream s w h
  Operation-keeps w _ (drops_upstream s) h = laws.drop_upstream s w h
  Operation-keeps w _ (guards_downstream s) h = laws.guard_downstream s w h
  Operation-keeps w _ (drops_downstream s) h = laws.drop_downstream s w h
  Operation-keeps w _ (guards_bypass s) h = laws.guard_bypass_downstream s w h
  Operation-keeps w _ (drops_bypass s) h = laws.drop_bypass_downstream s w h
  Operation-keeps w _ (guards_close s) h = laws.guard_close s w h
  Operation-keeps w _ (drops_close s) h = laws.drop_close s w h
  Operation-keeps w _ (starts s parts) h = laws.start s parts w h
  Operation-keeps w _ (sends_upstream s msg) h = laws.send_upstream s msg w h
  Operation-keeps w _ (sends_bypass s msg) h = laws.send_bypass s msg w h
  Operation-keeps w _ (creates url) h = laws.create url w h
  Operation-keeps w _ (finds id) h = laws.find id w h

  ensure_started-Keeps : (s : Session) (parts : Parts) → Keeps P (ensure_started g s parts)
  unfolding ensure_started
  ensure_started-Keeps s parts w h = go (g.is_started s w)
    where
      go : (b : Bool) → P (if b then (ok tt, w) else g.start s parts w).1
      go true = h
      go false = laws.start s parts w h

  module _ (resolve : Parts → Action W Url)
      (authorize_enter : Authentication → Action W AuthorizationResult)
      (encode : List (String × String) → String) where
    pick_session-Keeps :
        ((parts : Parts) → Keeps P (resolve parts))
        → (id : Option String) (parts : Parts)
        → Keeps P (pick_session g m resolve authorize_enter encode id parts)
    unfolding pick_session
    pick_session-Keeps r (some id) parts =
        >>=-Keeps P (m.find id) (found_or g m resolve authorize_enter encode id) (laws.find id)
          (λ s w h. h)
    pick_session-Keeps r none parts = >>=-Keeps P (resolve parts) m.create (r parts) laws.create

    open_stream-Keeps :
        (authn : Authentication) (s : Session)
        → Keeps P (open_stream g m resolve authorize_enter encode authn s)
    unfolding open_stream
    open_stream-Keeps authn s = >>=-Keeps P (g.guard_close s) _ (laws.guard_close s) λ _.
        >>=-Keeps P (λ w. unless_ok (g.drop_close s) (g.guard_downstream s w)) _
          (λ w h.
            unless_ok-kept P (g.drop_close s) (g.guard_downstream s w) (laws.drop_close s)
              (laws.guard_downstream s w h))
          (λ _ w h. h)

    -- The end of an event stream keeps an invariant of the sessions' operations.
    pub end_stream-keeps :
        (s : Session) → KeepsDrop P (end_stream g m resolve authorize_enter encode s)
    unfolding end_stream
    end_stream-keeps s w h = laws.drop_downstream s (g.drop_close s w) (laws.drop_close s w h)

    -- What the operations of the sessions keep, and the resolver and the authorizer too, `GET /sse` keeps,
    -- on each of its ways out.
    pub sse-keeps :
        ((authn : Authentication) → Keeps P (authorize_enter authn))
        → ((parts : Parts) → Keeps P (resolve parts))
        → (authn : Authentication) (id : Option String) (parts : Parts)
        → Keeps P (Sse.handler g m resolve authorize_enter encode authn id parts)
    unfolding Sse.handler
    sse-keeps a r authn id parts = >>=-Keeps P (authorize_enter authn) _ (a authn) λ result.
        >>=-Keeps P (lift (to_err_response result)) _ (λ w h. h)
          λ _.
            >>=-Keeps P (pick_session g m resolve authorize_enter encode id parts) _
              (pick_session-Keeps r id parts)
              λ s.
                >>=-Keeps P (ensure_started g s parts) _ (ensure_started-Keeps s parts)
                  (λ _. open_stream-Keeps authn s)

module _ {W Session Parts Req Res Noti SReq SRes SNoti : Type 0}
    (g : GeneralSession W Session Parts
      (JsonRpcMessage Req Res Noti)
      (JsonRpcMessage SReq SRes SNoti))
    (m : GeneralSessionManager W Session) (P : W → Type 0) (laws : Invariant g m P) where
  refuse-Keeps : (s : Session) (json : JsonRpcMessage Req Res Noti) → Keeps P (refuse g s json)
  unfolding refuse
  refuse-Keeps s json =
      >>=-Keeps P (g.guard_bypass_downstream s) _ (laws.guard_bypass_downstream s) (λ _.
        dropping-Keeps P (g.drop_bypass_downstream s) (g.send_bypass s (denial json))
          (laws.drop_bypass_downstream s) (laws.send_bypass s (denial json)))

  answer-Keeps :
      (result : AuthorizationResult) (s : Session) (json : JsonRpcMessage Req Res Noti)
      → Keeps P (answer g result s json)
  unfolding answer
  answer-Keeps allow s json w h = h
  answer-Keeps deny s json w h = refuse-Keeps s json w h
  answer-Keeps unauthorized s json w h = h

  forward-Keeps : (s : Session) (json : JsonRpcMessage Req Res Noti) → Keeps P (forward g s json)
  unfolding forward
  forward-Keeps s json = >>=-Keeps P (g.guard_upstream s) _ (laws.guard_upstream s) (λ _.
      dropping-Keeps P (g.drop_upstream s) (do g.send_upstream s json; pure accepted)
        (laws.drop_upstream s)
        (>>=-Keeps P (g.send_upstream s json) _ (laws.send_upstream s json) (λ _ w h. h)))

  module _
      (authorize_client_message : Authentication
        → JsonRpcMessage Req Res Noti
        → Action W AuthorizationResult) where
    -- What the operations of the sessions keep, and the authorizer too, `POST /message` keeps, on each of its
    -- ways out.
    pub message-keeps :
        ((authn : Authentication) (json : JsonRpcMessage Req Res Noti)
          → Keeps P (authorize_client_message authn json))
        → (authn : Authentication) (id : String) (parts : Parts)
          (json : JsonRpcMessage Req Res Noti)
        → Keeps P (Message.handler g m authorize_client_message authn id parts json)
    unfolding Message.handler
    message-keeps a authn id parts json =
        >>=-Keeps P (authorize_client_message authn json) _ (a authn json)
          λ result. >>=-Keeps P (m.find id) _ (laws.find id) (λ found. serve result found)
      where
        serve :
            (result : AuthorizationResult) (found : Option Session)
            → Keeps {A = ℕ} P (elim found [
              | none ↦ fail (not_found (session_not_found id))
              | some session ↦ do
                ensure_started g session parts
                answer g result session json
                forward g session json
            ])
        serve result none w h = h
        serve result (some s) w h =
            >>=-Keeps P (ensure_started g s parts) _ (ensure_started-Keeps g m P laws s parts)
              (λ _.
                >>=-Keeps P (answer g result s json) _ (answer-Keeps result s json)
                  (λ _. forward-Keeps s json))
              w h
