-- ===== src/Auth/Static/Entry.antt =====
-- Who enters, by authz_static.rs: a list of rules against a description of what it lets in.
use overlay_mcp.Base.{
  String, ◌≡◌, ◌↔◌, ◌⊎◌, inl, inr, ◌∙◌, ap, false, Option, none, some, List, [], ◌∷◌, arith, All,
  contains, Bool-cases, Option-cases, ok, >>=-eq-ok, if◌then◌else◌,
}
use overlay_mcp.Core.Json.{Value}
use overlay_mcp.Core.Errors.{PointerBuf}
use overlay_mcp.Core.Models.{
  api_key, jwt, HttpReference, TokenData, AuthorizationResult, allow, deny,
}
use overlay_mcp.Core.Config.{JwtWhitelistAndBlacklist}
use overlay_mcp.Auth.Static.{
  StaticAuthz, scan, claim_values, apply_rule, apply_rules, authorize_apikey, authorize_jwt,
  authorize_enter,
}
use overlay_mcp.Auth.Static.Rules.{
  In, contains-In, not_In, HasValues, IsUnlisted, Picks, claim_values-HasValues,
  HasValues-claim_values, scan-Picks, Picks-scan, scan-none, none-scan,
}

module _ (resolve : PointerBuf → Value → Option Value) where
  -- The claim of the rule is there, and its first listed value is whitelisted.
  abbrev pub Lets : JwtWhitelistAndBlacklist → Value → Type 0
  Lets rule claims =
      (v : Value) × (vals : List String) × (resolve rule.path claims ≡ some v)
      × HasValues rule.type v vals
      × Picks rule vals

  -- The rule decides nothing: its claim is absent and not required, or holds no listed value.
  abbrev pub Passes : JwtWhitelistAndBlacklist → Value → Type 0
  Passes rule claims =
      ((resolve rule.path claims ≡ none) × (rule.required ≡ false))
      ⊎ ((v : Value) × (vals : List String) × (resolve rule.path claims ≡ some v)
          × HasValues rule.type v vals
          × All (IsUnlisted rule) vals)

  -- The first rule that decides lets the claims in.
  pub data Allows : List JwtWhitelistAndBlacklist → Value → Type 0 where
    first :
        {rule : JwtWhitelistAndBlacklist} {rules : List JwtWhitelistAndBlacklist} {claims : Value}
        → Lets rule claims
        → Allows (rule ∷ rules) claims
    later :
        {rule : JwtWhitelistAndBlacklist} {rules : List JwtWhitelistAndBlacklist} {claims : Value}
        → Passes rule claims
        → Allows rules claims
        → Allows (rule ∷ rules) claims

  -- A rule whose claim is there decides by the values that the claim holds.
  apply_rule-found :
      (rule : JwtWhitelistAndBlacklist) (claims v : Value) (d : Option AuthorizationResult)
      → resolve rule.path claims ≡ some v
      → apply_rule resolve rule claims ≡ ok d
      → (vals : List String) × HasValues rule.type v vals × (scan rule vals ≡ d)
  unfolding apply_rule
  apply_rule-found rule claims v d e h =
      let (vals, r, q) =
        >>=-eq-ok (claim_values rule.path rule.type v) (λ vals. ok (scan rule vals)) {b = d}
          (rw (e, apply_rule) at h) in
      (vals, claim_values-HasValues rule.path rule.type v vals r, cc)

  apply_rule-absent :
      (rule : JwtWhitelistAndBlacklist) (claims : Value)
      → resolve rule.path claims ≡ none
      → apply_rule resolve rule claims ≡ (if rule.required then ok (some deny) else ok none)
  unfolding apply_rule
  apply_rule-absent rule claims e = rw (e, apply_rule)

  apply_rule-Lets :
      (rule : JwtWhitelistAndBlacklist) (claims : Value)
      → apply_rule resolve rule claims ≡ ok (some allow)
      → Lets rule claims
  apply_rule-Lets rule claims h = elim (Option-cases (resolve rule.path claims)) [
    | inl e ↦ absurd (ground (arith, apply_rule-absent rule claims e))
    | inr (v, e) ↦
        let (vals, hv, q) = apply_rule-found rule claims v (some allow) e h in
        (v, vals, e, hv, scan-Picks rule vals q)
  ]

  Lets-apply_rule :
      (rule : JwtWhitelistAndBlacklist) (claims : Value)
      → Lets rule claims
      → apply_rule resolve rule claims ≡ ok (some allow)
  unfolding apply_rule
  Lets-apply_rule rule claims (v, vals, e, hv, p) =
      rw (e, apply_rule)
        (rw (HasValues-claim_values rule.path _ _ _ hv) (rw (Picks-scan rule vals p)))

  apply_rule-Passes :
      (rule : JwtWhitelistAndBlacklist) (claims : Value)
      → (apply_rule resolve rule claims ≡ ok none)
      → Passes rule claims
  apply_rule-Passes rule claims h = elim (Option-cases (resolve rule.path claims)) [
    | inl e ↦ inl (e, ground (arith, apply_rule-absent rule claims e))
    | inr (v, e) ↦
        let (vals, hv, q) = apply_rule-found rule claims v none e h in
        inr (v, vals, e, hv, scan-none rule vals q)
  ]

  Passes-apply_rule :
      (rule : JwtWhitelistAndBlacklist) (claims : Value)
      → Passes rule claims
      → apply_rule resolve rule claims ≡ ok none
  unfolding apply_rule
  Passes-apply_rule rule claims (inl (e, n)) = rw (e, apply_rule) (rw n)
  Passes-apply_rule rule claims (inr (v, vals, e, hv, u)) =
      rw (e, apply_rule)
        (rw (HasValues-claim_values rule.path _ _ _ hv) (rw (none-scan rule vals u)))

  apply_rules-Allows :
      (rules : List JwtWhitelistAndBlacklist) (claims : Value)
      → apply_rules resolve rules claims ≡ ok allow
      → Allows rules claims
  unfolding apply_rules
  apply_rules-Allows [] claims h = absurd (cc)
  apply_rules-Allows (rule ∷ rules) claims h =
      let (d, e, q) =
        >>=-eq-ok (apply_rule resolve rule claims)
          (λ d. elim d [ some result ↦ ok result | none ↦ apply_rules resolve rules claims ]) h in
      go d e q (apply_rules-Allows rules claims)
    where
      go :
          (d : Option AuthorizationResult)
          → apply_rule resolve rule claims ≡ ok d
          → (elim d [ some result ↦ ok result | none ↦ apply_rules resolve rules claims ])
            ≡ ok allow
          → (apply_rules resolve rules claims ≡ ok allow → Allows rules claims)
          → Allows (rule ∷ rules) claims
      go none e q ih = later (apply_rule-Passes rule claims e) (ih q)
      go (some result) e q ih =
          first (apply_rule-Lets rule claims (e ∙ ap (λ r. ok (some r)) (ground arith)))

  Allows-apply_rules :
      (rules : List JwtWhitelistAndBlacklist) (claims : Value)
      → Allows rules claims
      → apply_rules resolve rules claims ≡ ok allow
  unfolding apply_rules
  Allows-apply_rules _ _ (first {rule} {rules} {claims} l) = rw (Lets-apply_rule rule claims l)
  Allows-apply_rules _ _ (later {rule} {rules} {claims} p a) =
      rw (Passes-apply_rule rule claims p) (Allows-apply_rules rules claims a)

  -- A token enters exactly when the first rule that decides about its claims lets it in: every rule
  -- before it passes, and the first listed value of its claim is whitelisted and not blacklisted.
  pub authorize_enter-jwt :
      (self : StaticAuthz) (token : TokenData)
      → (authorize_enter resolve self (jwt token) ≡ ok allow) ↔ Allows self.jwt token.claims
  unfolding authorize_enter authorize_jwt
  authorize_enter-jwt self token =
      (apply_rules-Allows self.jwt token.claims, Allows-apply_rules self.jwt token.claims)

  -- Once a rule lets the claims in, the rules after it are not looked at, required or not.
  pub authorize_enter-rest_ignored :
      (self : StaticAuthz) (token : TokenData) (rule : JwtWhitelistAndBlacklist)
      (rules : List JwtWhitelistAndBlacklist)
      → self.jwt ≡ rule ∷ rules
      → Lets rule token.claims
      → authorize_enter resolve self (jwt token) ≡ ok allow
  unfolding authorize_enter authorize_jwt
  authorize_enter-rest_ignored self token rule rules e l =
      rw e (Allows-apply_rules (rule ∷ rules) token.claims (first l))

  -- An API key enters exactly when it is whitelisted and not blacklisted; any other is denied.
  pub authorize_enter-api_key :
      (self : StaticAuthz) (key : String) (from : HttpReference)
      → let result = authorize_enter resolve self (api_key key from) in
        ((result ≡ ok allow) ↔ (In key self.apikey.whitelist × (¬ In key self.apikey.blacklist)))
        × ((result ≡ ok allow) ⊎ (result ≡ ok deny))
  unfolding authorize_enter authorize_apikey
  authorize_enter-api_key self key from = elim (Bool-cases (contains self.apikey.blacklist key)) [
    | inl b ↦
        ((λ h. absurd (ground arith), λ h. absurd (h.1 (contains-In _ _ b))), inr (ground arith))
    | inr b ↦ elim (Bool-cases (contains self.apikey.whitelist key)) [
      | inl w ↦ ((λ h. (contains-In _ _ w, not_In _ _ b), λ h. ground arith), inl (ground arith))
      | inr w ↦ ((λ h. absurd (ground arith), λ h. absurd (not_In _ _ w h.0)), inr (ground arith))
    ]
  ]
