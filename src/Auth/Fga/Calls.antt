-- ===== src/Auth/Fga/Calls.antt =====
-- What authz_fga.rs answers, for the answers that the OpenFGA server gives.
use overlay_mcp.Base.{
  String, ◌<>◌, ◌≡◌, refl, ◌↔◌, subst, true, Option, none, some, arith, Result, ok, ◌>>=◌,
  >>=-eq-ok, Bool-cases, inl, inr,
}
use overlay_mcp.Core.Json.{Value}
use overlay_mcp.Core.Errors.{Error, PointerBuf}
use overlay_mcp.Core.Models.{Authentication, allow}
use overlay_mcp.Openfga.{CheckBody, CheckResponse}
use overlay_mcp.Auth.Fga.{
  OpenfgaAuthzConfig, to_authz_result, build_tuple_user, authorize_enter, authorize_client_message,
}

module _ (resolve : PointerBuf → Value → Option Value)
    (check : CheckBody → Result CheckResponse Error) (config : OpenfgaAuthzConfig) where
  -- The server answers that the request's tuple for the object is allowed.
  abbrev pub IsAllowed : Authentication → (object_value : String) → Type 0
  IsAllowed target object_value =
      (tuple : CheckBody) × (resp : CheckResponse) × (build_tuple_user resolve config target
          object_value
        ≡ ok tuple)
      × (check tuple ≡ ok resp)
      × (resp.allowed ≡ true)

  checked-IsAllowed :
      (target : Authentication) (object_value : String)
      → ((do
        tuple ← build_tuple_user resolve config target object_value
        check_resp ← check tuple
        ok (to_authz_result check_resp))
          ≡ ok allow)
        ↔ IsAllowed target object_value
  unfolding to_authz_result
  checked-IsAllowed target object_value = (
    λ h.
        let (tuple, p, h') =
          >>=-eq-ok (build_tuple_user resolve config target object_value) _ {b = allow} h in
        let (resp, q, e) = >>=-eq-ok (check tuple) (λ r. ok (to_authz_result r)) {b = allow} h' in
        (
          tuple,
          resp,
          p,
          q,
          elim (Bool-cases resp.allowed) [ inl a ↦ a | inr a ↦ ground (arith, a) ],
        ),
    λ (tuple, resp, p, q, e). rw p (rw q (rw e refl)),
  )

  -- A request may enter exactly where the server allows its tuple for `.system/enter`: an error of the
  -- claims or of the server, and a missing credential, never let it in.
  pub authorize_enter-fga :
      (target : Authentication)
      → (authorize_enter resolve check config target ≡ ok allow) ↔ IsAllowed target ".system/enter"
  unfolding authorize_enter
  authorize_enter-fga target = checked-IsAllowed target _

  -- A call of a tool passes exactly where the server allows the request's tuple for that tool, and any
  -- other message passes whatever the server and the credentials are.
  pub authorize_client_message-fga :
      (target : Authentication) (called_tool : Option String)
      → (authorize_client_message resolve check config target called_tool ≡ ok allow)
        ↔ ((name : String) → called_tool ≡ some name → IsAllowed target ("tools/call/" <> name))
  unfolding authorize_client_message
  authorize_client_message-fga target none = (λ h name e. absurd (cc e), λ _. refl)
  authorize_client_message-fga target (some tool) = (
    λ h name e.
        subst (λ n. IsAllowed target ("tools/call/" <> n)) (cc) ((checked-IsAllowed target _).0 h),
    λ f. (checked-IsAllowed target _).1 (f tool refl),
  )
