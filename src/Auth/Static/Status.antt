-- ===== src/Auth/Static/Status.antt =====
-- The HTTP status that a request which may not enter is answered with, by authz_static.rs,
-- models.rs and errors.rs.
use overlay_mcp.Base.{
  ℕ, ◌≡◌, refl, ◌↔◌, Option, none, some, List, [], ◌∷◌, arith, Result, ok, err, ok_or, ◌>>=◌,
  String,
}
use overlay_mcp.Core.Json.{Value, string, array, items}
use overlay_mcp.Core.Errors.{PointerBuf, JwtContextPointerType, string_array, Error}
use overlay_mcp.Core.Models.{
  Authentication, api_key, jwt, no_auth, AuthorizationResult, allow, deny, unauthorized,
  to_err_response,
}
use overlay_mcp.Core.Responses.{into_response}
use overlay_mcp.Core.Config.{JwtWhitelistAndBlacklist}
use overlay_mcp.Auth.Static.{
  StaticAuthz, scan, collect_strings, claim_values, apply_rule, apply_rules, authorize_apikey,
  authorize_jwt, authorize_enter,
}

-- The status that `authorize_enter(…).await?.to_err_response()?` answers with; `none` goes on.
abbrev pub refusal : Result AuthorizationResult Error → Option ℕ
refusal result = elim (result >>= to_err_response) [
  | ok _ ↦ none
  | err e ↦ some (into_response e).status
]

-- A failure, if there is one, is answered with 500.
abbrev Fails {ℓ} : {A : Type ℓ} → Result A Error → Type 0
Fails (ok _) = Unit
Fails (err e) = (into_response e).status ≡ 500

Fails-bind {ℓ κ} :
    {A : Type ℓ} {B : Type κ} (m : Result A Error) (f : A → Result B Error)
    → Fails m
    → ((a : A) → Fails (f a))
    → Fails (m >>= f)
Fails-bind (ok a) f h k = k a
Fails-bind (err e) f h k = h

Fails-ok_or {ℓ} :
    {A : Type ℓ} (o : Option A) (e : Error) → (into_response e).status ≡ 500 → Fails (ok_or o e)
Fails-ok_or none e h = h
Fails-ok_or (some a) e h = tt

Fails-collect_strings : (path : PointerBuf) (xs : List Value) → Fails (collect_strings path xs)
unfolding collect_strings into_response
Fails-collect_strings path [] = tt
Fails-collect_strings path (x ∷ xs) =
    Fails-bind _ _ (Fails-ok_or _ _ refl)
      λ s. Fails-bind (collect_strings path xs) _ (Fails-collect_strings path xs) λ _. tt

Fails-claim_values :
    (path : PointerBuf) (t : JwtContextPointerType) (v : Value) → Fails (claim_values path t v)
unfolding claim_values into_response
Fails-claim_values path JwtContextPointerType.string (string s) = tt
Fails-claim_values path string_array (array vs) = Fails-collect_strings path (items vs)
Fails-claim_values path t v = ground arith

-- Neither a failure with another status than 500 nor `Unauthorized`.
abbrev Settles : Result AuthorizationResult Error → Type 0
Settles (ok unauthorized) = ⊥
Settles (ok _) = Unit
Settles (err e) = (into_response e).status ≡ 500

abbrev Decides : Result (Option AuthorizationResult) Error → Type 0
Decides (ok (some unauthorized)) = ⊥
Decides (ok _) = Unit
Decides (err e) = (into_response e).status ≡ 500

scan-Decides :
    (rule : JwtWhitelistAndBlacklist) (vals : List String) → Decides (ok (scan rule vals))
unfolding scan
scan-Decides rule [] = tt
scan-Decides rule (val ∷ vals) = ground (arith, scan-Decides rule vals)

Decides-bind {ℓ} :
    {A : Type ℓ} (m : Result A Error) (f : A → Option AuthorizationResult)
    → Fails m
    → ((a : A) → Decides (ok (f a)))
    → Decides (do a ← m; ok (f a))
Decides-bind (ok a) f h k = k a
Decides-bind (err e) f h k = h

module _ (resolve : PointerBuf → Value → Option Value) where
  found-Decides :
      (rule : JwtWhitelistAndBlacklist) (claims : Value) (o : Option Value)
      → resolve rule.path claims ≡ o
      → Decides (apply_rule resolve rule claims)
  unfolding apply_rule
  found-Decides rule claims none e = rw (e, apply_rule) (ground arith)
  found-Decides rule claims (some v) e =
      rw (e, apply_rule)
        (Decides-bind (claim_values rule.path rule.type v) (scan rule)
          (Fails-claim_values rule.path rule.type v) (scan-Decides rule))

  apply_rules-Settles :
      (rules : List JwtWhitelistAndBlacklist) (claims : Value)
      → Settles (apply_rules resolve rules claims)
  unfolding apply_rules
  apply_rules-Settles [] claims = tt
  apply_rules-Settles (rule ∷ rules) claims =
      go (apply_rule resolve rule claims) (found-Decides rule claims _ refl)
        (apply_rules-Settles rules claims)
    where
      go :
          (d : Result (Option AuthorizationResult) Error)
          → Decides d
          → Settles (apply_rules resolve rules claims)
          → Settles (
              d >>= λ o. elim o [
                | some result ↦ ok result
                | none ↦ apply_rules resolve rules claims
              ])
      go (err e) h ih = h
      go (ok none) h ih = ih
      go (ok (some allow)) h ih = tt
      go (ok (some deny)) h ih = tt
      go (ok (some unauthorized)) h ih = h

  Settles-refusal : (r : Result AuthorizationResult Error) → Settles r → ¬ (refusal r ≡ some 401)
  unfolding to_err_response into_response
  Settles-refusal (ok allow) h e = cc
  Settles-refusal (ok deny) h e = ground arith
  Settles-refusal (ok unauthorized) h e = h
  Settles-refusal (err x) h e = ground arith

  -- A request is answered with 401 exactly when it has no credentials at all: an API key or a token
  -- that may not enter is never answered so.
  pub authorize_enter-status :
      (self : StaticAuthz) (target : Authentication)
      → (refusal (authorize_enter resolve self target) ≡ some 401) ↔ (target ≡ no_auth)
  unfolding authorize_enter authorize_jwt authorize_apikey
  authorize_enter-status self no_auth =
      (λ _. refl, λ _. unfold to_err_response into_response in refl)
  authorize_enter-status self (jwt token) = (
    λ h. absurd (Settles-refusal _ (apply_rules-Settles self.jwt token.claims) h),
    λ e. absurd (cc),
  )
  authorize_enter-status self (api_key key from) =
      (λ h. absurd (Settles-refusal (authorize_apikey self key) (ground arith) h), λ e. absurd (cc))
