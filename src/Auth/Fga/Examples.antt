-- ===== src/Auth/Fga/Examples.antt =====
-- The theorems about authz_fga.rs at a concrete configuration and server.
use overlay_mcp.Base.{
  String, ◌<>◌, ◌==◌, ◌≡◌, refl, ◌↔◌, Option, none, some, List, [], ◌∷◌, Result, ok, if◌then◌else◌,
}
use overlay_mcp.Core.Json.{Value, string, array, object, nil, cons, Fields, end, field}
use overlay_mcp.Core.Errors.{Error, PointerBuf, string_array}
use overlay_mcp.Core.Models.{jwt, no_auth, TokenData, allow}
use overlay_mcp.Openfga.{Tuple, CheckBody, CheckResponse}
use overlay_mcp.Auth.Fga.{
  OpenfgaAuthzConfig, member, check_body, build_tuple_user, authorize_enter,
  authorize_client_message,
}
use overlay_mcp.Auth.Fga.Context.{HasContext, build_tuple_user-jwt}
use overlay_mcp.Auth.Fga.Calls.{IsAllowed, authorize_client_message-fga}

abbrev entry : String → Fields → Option Value
entry key end = none
entry key (field k v fs) = if k == key then some v else entry key fs

abbrev resolve_field : PointerBuf → Value → Option Value
resolve_field path (object fs) = entry path fs
resolve_field path _ = none

-- Only the member with the key `k1` may enter.
abbrev answer : CheckBody → Result CheckResponse Error
answer body = ok (record { allowed = body.tuple_key.user == "apikey:k1"; resolution = "" })

abbrev config : OpenfgaAuthzConfig
config = record {
  check = record { group = "mcp"; relation = "call" };
  apikey = record { group = "apikey" };
  jwt = record {
    group = "email";
    claim_path = "email";
    context_fields =
        record { relation = "member"; group = "group"; path = "groups"; type = string_array } ∷ [];
  };
}

abbrev ann : TokenData
ann = record {
  header = record { alg = "RS256"; kid = none };
  claims = object (
      field "email" (string "ann@x")
        (field "groups" (array (cons (string "dev") (cons (string "ops") nil))) end));
}

abbrev tuple_user : String → String → String → Tuple
tuple_user user relation on = record { user = user; relation = relation; object = on }

abbrev ann_body : CheckBody
ann_body = record {
  tuple_key = tuple_user "email:ann@x" "call" "mcp:tools/call/echo";
  contextual_tuples = record {
    tuple_keys =
        tuple_user "email:ann@x" "member" "group:dev"
        ∷ tuple_user "email:ann@x" "member" "group:ops"
        ∷ [];
  };
  consistency = none;
}

build_tuple_user-jwt_example :
    (build_tuple_user resolve_field config (jwt ann) "tools/call/echo" ≡ ok ann_body) ↔ (
      (sub : String) × (context : List Tuple) × (resolve_field config.jwt.claim_path ann.claims
        ≡ some (string sub))
      × HasContext resolve_field
          (member config.jwt.group sub)
          ann.claims
          config.jwt.context_fields
          context
      × (check_body resolve_field config (member config.jwt.group sub) "tools/call/echo" context
          ≡ ann_body))
build_tuple_user-jwt_example =
    build_tuple_user-jwt resolve_field config ann "tools/call/echo" ann_body

ann_is_asked : build_tuple_user resolve_field config (jwt ann) "tools/call/echo" ≡ ok ann_body
unfolding build_tuple_user overlay_mcp.Auth.Fga.context_tuples overlay_mcp.Auth.Fga.field_tuples
    overlay_mcp.Auth.Fga.field_as_str overlay_mcp.Auth.Fga.field_as_str_array
ann_is_asked = refl

authorize_client_message-fga_example :
    (authorize_client_message resolve_field answer config no_auth (some "echo") ≡ ok allow) ↔ (
      (name : String)
      → some "echo" ≡ some name
      → IsAllowed resolve_field answer config no_auth ("tools/call/" <> name))
authorize_client_message-fga_example =
    authorize_client_message-fga resolve_field answer config no_auth (some "echo")
