-- ===== src/Auth/Static.antt =====
-- crates/overlay-mcp-auth/src/authz_static.rs. The resolution of a JSON pointer, which is jsonptr's,
-- is the parameter `resolve`; it returns `none` where the library returns an error.
pub mod Rules
pub mod Entry
pub mod Status
pub mod Examples
use overlay_mcp.Base.{
  String, Bool, true, false, Option, none, some, List, [], ◌∷◌, all, contains, if◌then◌else◌,
  Result, ok, err, ok_or, ◌>>=◌,
}
use overlay_mcp.Core.Json.{
  Value, null, bool, number, string, array, object, items, as_str, as_array, is_string, is_number,
  is_boolean, is_object,
}
use overlay_mcp.Core.Errors.{
  PointerBuf, JwtContextPointerType, string_array, Error, jwt_claim_type_error,
}
use overlay_mcp.Core.Models.{
  Authentication, api_key, jwt, no_auth, TokenData, AuthorizationResult, allow, deny, unauthorized,
}
use overlay_mcp.Core.Config.{
  WhitelistAndBlacklist, JwtWhitelistAndBlacklist, AuthorizerConstantConfig,
}

pub record StaticAuthz : Type 0 where
  pub apikey : WhitelistAndBlacklist
  pub jwt : List JwtWhitelistAndBlacklist

-- `unwrap_or_default`
abbrev lists_or_default : Option WhitelistAndBlacklist → WhitelistAndBlacklist
lists_or_default none = record { whitelist = []; blacklist = [] }
lists_or_default (some lists) = lists

unfoldable pub new : AuthorizerConstantConfig → Result StaticAuthz Error
new config = ok (record { apikey = lists_or_default config.apikey; jwt = config.jwt })

unfoldable pub get_actual_type : Value → String
get_actual_type (string _) = "string"
get_actual_type (object _) = "object"
get_actual_type null = "null"
get_actual_type (bool _) = "boolean"
get_actual_type (number _) = "number"
get_actual_type (array v) =
    if all is_string (items v)
    then "string[]"
    else if all is_number (items v)
    then "number[]"
    else if all is_boolean (items v)
    then "boolean[]"
    else if all is_object (items v)
    then "object[]"
    else "array"

unfoldable pub authorize_apikey : StaticAuthz → String → Result AuthorizationResult Error
authorize_apikey self apikey =
    if contains self.apikey.blacklist apikey
    then ok deny
    else if contains self.apikey.whitelist apikey
    then ok allow
    else ok deny

-- The `collect` over an array claim: the first element that is no text is the error.
unfoldable pub collect_strings : PointerBuf → List Value → Result (List String) Error
collect_strings path [] = ok []
collect_strings path (x ∷ xs) = do
  s ← ok_or (as_str x) (jwt_claim_type_error path "string" (get_actual_type x))
  rest ← collect_strings path xs
  ok (s ∷ rest)

-- `vals`: the texts that a claim holds, by the type that the rule gives it.
unfoldable pub claim_values :
    PointerBuf → JwtContextPointerType → Value → Result (List String) Error
claim_values path JwtContextPointerType.string v = do
  s ← ok_or (as_str v) (jwt_claim_type_error path "string" (get_actual_type v))
  ok (s ∷ [])
claim_values path string_array v = do
  vs ← ok_or (as_array v) (jwt_claim_type_error path "string[]" (get_actual_type v))
  collect_strings path vs

-- `for val in vals`; `none` is the end of the loop with no return.
unfoldable pub scan : JwtWhitelistAndBlacklist → List String → Option AuthorizationResult
scan rule [] = none
scan rule (val ∷ vals) =
    if contains rule.blacklist val
    then some deny
    else if contains rule.whitelist val
    then some allow
    else scan rule vals

module _ (resolve : PointerBuf → Value → Option Value) where
  -- One round of `for jwtconfig in &self.0.jwt`; `ok none` goes on to the next rule.
  unfoldable pub apply_rule :
      JwtWhitelistAndBlacklist → Value → Result (Option AuthorizationResult) Error
  apply_rule rule claims = elim (resolve rule.path claims) [
    | none ↦ if rule.required then ok (some deny) else ok none
    | some v ↦ do vals ← claim_values rule.path rule.type v; ok (scan rule vals)
  ]

  unfoldable pub apply_rules :
      List JwtWhitelistAndBlacklist → Value → Result AuthorizationResult Error
  apply_rules [] claims = ok deny
  apply_rules (rule ∷ rules) claims = do
    decided ← apply_rule rule claims
    elim decided [ some result ↦ ok result | none ↦ apply_rules rules claims ]

  unfoldable pub authorize_jwt : StaticAuthz → TokenData → Result AuthorizationResult Error
  authorize_jwt self token = apply_rules self.jwt token.claims

  unfoldable pub authorize_enter : StaticAuthz → Authentication → Result AuthorizationResult Error
  authorize_enter self (api_key apikey _) = authorize_apikey self apikey
  authorize_enter self (jwt token) = authorize_jwt self token
  authorize_enter self no_auth = ok unauthorized

-- Messages are not authorized here: every one is let through.
unfoldable pub authorize_client_message {ℓ} :
    {Message : Type ℓ} → StaticAuthz → Authentication → Message → Result AuthorizationResult Error
authorize_client_message self target message = ok allow

unfoldable pub authorize_server_message {ℓ} :
    {Message : Type ℓ} → StaticAuthz → Authentication → Message → Result AuthorizationResult Error
authorize_server_message self target message = ok allow
