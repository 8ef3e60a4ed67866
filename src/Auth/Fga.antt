-- ===== src/Auth/Fga.antt =====
-- crates/overlay-mcp-auth/src/authz_fga.rs. The resolution of a JSON pointer and the check of a tuple,
-- which ask jsonptr and the OpenFGA client, are parameters.
pub mod Context
pub mod Calls
pub mod Examples
use overlay_mcp.Base.{
  String, ◌<>◌, Bool, true, false, Option, none, some, List, [], ◌∷◌, ◌++◌, map, Result, ok, err,
  ok_or, ◌>>=◌, if◌then◌else◌,
}
use overlay_mcp.Core.Json.{Value, as_str, as_array}
use overlay_mcp.Core.Errors.{
  Error, fatal, claim_path_not_found, unexpected_claim_type, authentication_failed, PointerBuf,
  JwtContextPointerType, string_array,
}
use overlay_mcp.Core.Models.{
  Authentication, api_key, jwt, no_auth, TokenData, AuthorizationResult, allow, deny,
}
use overlay_mcp.Core.Config.{FgaCheckConfig, ApikeyTupleConfig, JwtTupleConfig, JwtContext}
use overlay_mcp.Openfga.{Tuple, CheckBody, CheckResponse}

pub record OpenfgaAuthzConfig : Type 0 where
  pub check : FgaCheckConfig
  pub apikey : ApikeyTupleConfig
  pub jwt : JwtTupleConfig

unfoldable pub field_as_str : Value → Result String Error
field_as_str field_value =
    ok_or (as_str field_value) (fatal (unexpected_claim_type JwtContextPointerType.string))

abbrev strings : List Value → Result (List String) Error
strings [] = ok []
strings (v ∷ vs) = do s ← field_as_str v; rest ← strings vs; ok (s ∷ rest)

unfoldable pub field_as_str_array : Value → Result (List String) Error
field_as_str_array field_value = do
  v ← ok_or (as_array field_value) (fatal (unexpected_claim_type string_array))
  strings v

unfoldable pub to_authz_result : CheckResponse → AuthorizationResult
to_authz_result res = if res.allowed then allow else deny

-- `format!("{}:{}", group, value)`
abbrev pub member : String → String → String
member group value = group <> (":" <> value)

module _ (resolve : PointerBuf → Value → Option Value) where
  abbrev pub claim : PointerBuf → Value → Result Value Error
  claim path claims = ok_or (resolve path claims) (fatal (claim_path_not_found path))

  abbrev pub tuple_of : String → JwtContext → String → Tuple
  tuple_of user field value = record {
    user = user;
    relation = field.relation;
    object = member field.group value;
  }

  -- `match field.r#type`: the tuples of one context field.
  abbrev pub field_values : JwtContextPointerType → Value → Result (List String) Error
  field_values JwtContextPointerType.string v = do s ← field_as_str v; ok (s ∷ [])
  field_values string_array v = field_as_str_array v

  unfoldable pub field_tuples : String → JwtContext → Value → Result (List Tuple) Error
  field_tuples user field claims = do
    field_value ← claim field.path claims
    values ← field_values field.type field_value
    ok (map (tuple_of user field) values)

  -- `for field in self.config.jwt.context_fields.iter()`
  unfoldable pub context_tuples : String → List JwtContext → Value → Result (List Tuple) Error
  context_tuples user [] claims = ok []
  context_tuples user (field ∷ fields) claims = do
    tuples ← field_tuples user field claims
    rest ← context_tuples user fields claims
    ok (tuples ++ rest)

  abbrev pub check_body : OpenfgaAuthzConfig → String → String → List Tuple → CheckBody
  check_body config user object_value context = record {
    tuple_key = record {
      user = user;
      relation = config.check.relation;
      object = member config.check.group object_value;
    };
    contextual_tuples = record { tuple_keys = context };
    consistency = none;
  }

  unfoldable pub build_tuple_user :
      OpenfgaAuthzConfig → Authentication → String → Result CheckBody Error
  build_tuple_user config (api_key apikey _) object_value =
      ok (check_body config (member config.apikey.group apikey) object_value [])
  build_tuple_user config (jwt token) object_value = do
    field_value ← claim config.jwt.claim_path token.claims
    field_value_str ← field_as_str field_value
    let user = member config.jwt.group field_value_str
    context ← context_tuples user config.jwt.context_fields token.claims
    ok (check_body config user object_value context)
  build_tuple_user config no_auth object_value = err (Error.unauthorized authentication_failed)

  -- `openfga.check(None, tuple).await?`, with the client's error in this crate's type.
  module _ (check : CheckBody → Result CheckResponse Error) where
    unfoldable pub authorize_enter :
        OpenfgaAuthzConfig → Authentication → Result AuthorizationResult Error
    authorize_enter config target = do
      tuple ← build_tuple_user config target ".system/enter"
      check_resp ← check tuple
      ok (to_authz_result check_resp)

    -- What the program reads of a client message: the tool, if it is a `tools/call` request.
    unfoldable pub authorize_client_message :
        OpenfgaAuthzConfig
        → Authentication
        → (called_tool : Option String) → Result AuthorizationResult Error
    authorize_client_message config target (some name) = do
      tuple ← build_tuple_user config target ("tools/call/" <> name)
      check_resp ← check tuple
      ok (to_authz_result check_resp)
    authorize_client_message config target none = ok allow

unfoldable pub authorize_server_message {ℓ} :
    {Message : Type ℓ}
    → OpenfgaAuthzConfig
    → Authentication
    → Message
    → Result AuthorizationResult Error
authorize_server_message config target message = ok allow
