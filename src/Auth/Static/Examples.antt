-- ===== src/Auth/Static/Examples.antt =====
-- The theorems about authz_static.rs at concrete lists and claims, and tests.
use overlay_mcp.Base.{
  String, ◌==◌, ◌≡◌, refl, ◌↔◌, true, Option, none, some, [], ◌∷◌, arith, here, there, eq_iff,
  if◌then◌else◌, ok, err,
}
use overlay_mcp.Core.Json.{Value, string, array, object, nil, cons, null, Fields, end, field}
use overlay_mcp.Core.Errors.{PointerBuf, JwtContextPointerType, string_array, jwt_claim_type_error}
use overlay_mcp.Core.Models.{Authentication, api_key, jwt, header, TokenData, allow}
use overlay_mcp.Core.Config.{JwtWhitelistAndBlacklist}
use overlay_mcp.Auth.Static.{
  StaticAuthz, get_actual_type, claim_values, apply_rules, authorize_jwt, authorize_enter,
}
use overlay_mcp.Auth.Static.Rules.{In, one, picked}
use overlay_mcp.Auth.Static.Entry.{Lets, Allows, authorize_enter-jwt}

-- A resolver for pointers of one step, to a field of the claims.
abbrev entry : String → Fields → Option Value
entry key end = none
entry key (field k v fs) = if k == key then some v else entry key fs

abbrev resolve_field : PointerBuf → Value → Option Value
resolve_field path (object fs) = entry path fs
resolve_field path _ = none

abbrev groups_rule : JwtWhitelistAndBlacklist
groups_rule = record {
  path = "role";
  required = true;
  type = JwtContextPointerType.string;
  whitelist = "admin" ∷ [];
  blacklist = "guest" ∷ [];
}

abbrev email_rule : JwtWhitelistAndBlacklist
email_rule = record {
  path = "verified";
  required = true;
  type = JwtContextPointerType.string;
  whitelist = "yes" ∷ [];
  blacklist = [];
}

abbrev lists : StaticAuthz
lists = record {
  apikey = record { whitelist = "k1" ∷ []; blacklist = "k0" ∷ [] };
  jwt = groups_rule ∷ email_rule ∷ [];
}

abbrev admin : TokenData
admin = record {
  header = record { alg = "RS256"; kid = none };
  claims = object (field "role" (string "admin") end);
}

abbrev key_header : Authentication
key_header = api_key "k1" (header "x-api-key")

admin_is_let_in : Lets resolve_field groups_rule admin.claims
admin_is_let_in =
    (string "admin", "admin" ∷ [], refl, one "admin" _ refl, picked not_guest (here refl))
  where
    not_guest : ¬ In "admin" ("guest" ∷ [])
    not_guest (here e) = ground (arith, eq_iff "guest" "admin")
    not_guest (there h) = elim h [ ]

authorize_enter-jwt_example :
    (authorize_enter resolve_field lists (jwt admin) ≡ ok allow)
    ↔ Allows resolve_field lists.jwt admin.claims
authorize_enter-jwt_example = authorize_enter-jwt resolve_field lists admin

mixed_claim :
    claim_values "g" string_array (array (cons (string "a") (cons null nil)))
    ≡ err (jwt_claim_type_error "g" "string" "null")
unfolding claim_values overlay_mcp.Auth.Static.collect_strings get_actual_type
mixed_claim = refl

empty_array_type : get_actual_type (array nil) ≡ "string[]"
unfolding get_actual_type
empty_array_type = refl
