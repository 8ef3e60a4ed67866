-- ===== src/Auth/Authn.antt =====
-- crates/overlay-mcp-auth/src/authn_basic.rs: who a request comes from. jsonwebtoken's functions and
-- types, and the parser of query strings, are the fields of `Libraries`.
pub mod Keys
pub mod Bearer
pub mod Load
pub mod Signature
pub mod Examples
use overlay_mcp.Base.{
  String, ℕ, ◌==◌, Bool, true, false, Option, none, some, List, [], ◌∷◌, ◌++◌, lookup, insert,
  values, find_map, split_whitespace, trim, to_lowercase, if◌then◌else◌, Result, ok, err, ok_or,
  ◌>>=◌,
}
use overlay_mcp.Core.Errors.{
  Error, Url, bad_request, invalid_header_string, invalid_token, bearer_token_expected,
}
use overlay_mcp.Core.Models.{
  HttpReference, Header, TokenData, Authentication, api_key, jwt, no_auth,
}
use overlay_mcp.Core.Config.{
  JwtValidatorConfig, JwtAudConfig, no_check, client_id, audience, IdpClientConfig,
}
use overlay_mcp.Http.Request.{Parts, HeaderValue, unwrap_or_default, resolve}

-- `jsonwebtoken::Validation`: its fields, as documented.
pub record Validation : Type 0 where
  pub algorithm : String
  pub required_spec_claims : List String
  pub leeway : ℕ
  pub reject_tokens_expiring_in_less_than : ℕ
  pub validate_exp : Bool
  pub validate_nbf : Bool
  pub validate_aud : Bool
  pub aud : Option (List String)
  pub iss : Option (List String)
  pub validate_signature : Bool

pub record Libraries : Type 1 where
  pub Jwk : Type 0
  pub DecodingKey : Type 0
  pub key_id : Jwk → Option String
  -- `none` is a key that the library refuses: the program panics.
  pub from_jwk : Jwk → Option DecodingKey
  pub empty_secret : DecodingKey
  pub decode_header : String → Option Header
  pub decode : String → DecodingKey → Validation → Option TokenData
  pub new_validation : (alg : String) → Validation
  pub parse_query : String → List (String × String)

pub record InnerAuthn (DecodingKey : Type 0) : Type 0 where
  pub apikey_from : List HttpReference
  pub issuer : Url
  pub kid_map : List (String × DecodingKey)
  pub no_kid_keys : List DecodingKey
  pub empty_key : DecodingKey
  pub jwt_validator : Option JwtValidatorConfig
  pub client_config : IdpClientConfig

-- `data_splited.next().unwrap_or_default()`, and what is left of it.
abbrev pub next : List String → String
next [] = ""
next (w ∷ ws) = w

abbrev pub rest : List String → List String
rest [] = []
rest (w ∷ ws) = ws

module _ (l : Libraries) where
  open l use {
    Jwk, DecodingKey, key_id, from_jwk, decode_header, decode, new_validation, parse_query,
  }

  -- `for key in &jwk.keys`; `none` is the panic of `unwrap`.
  abbrev place_key :
      Option String
      → DecodingKey
      → List (String × DecodingKey) × List DecodingKey
      → List (String × DecodingKey) × List DecodingKey
  place_key (some kid) key (kid_map, no_kid_keys) = (insert kid key kid_map, no_kid_keys)
  place_key none key (kid_map, no_kid_keys) = (kid_map, no_kid_keys ++ key ∷ [])

  unfoldable pub load_keys :
      List Jwk
      → List (String × DecodingKey) × List DecodingKey
      → Option (List (String × DecodingKey) × List DecodingKey)
  load_keys [] keys = some keys
  load_keys (jwk ∷ jwks) keys = elim (from_jwk jwk) [
    | none ↦ none
    | some key ↦ load_keys jwks (place_key (key_id jwk) key keys)
  ]

  -- The end of `AuthnBasic::new`, from what `load_idp` returns.
  unfoldable pub new :
      List HttpReference
      → Url
      → Option (List Jwk × JwtValidatorConfig)
      → IdpClientConfig
      → Option (InnerAuthn DecodingKey)
  new key_from issuer (some (jwk, validator)) client_config = elim (load_keys jwk ([], [])) [
    | none ↦ none
    | some (kid_map, no_kid_keys) ↦ some (record {
      apikey_from = key_from;
      issuer = issuer;
      kid_map = kid_map;
      no_kid_keys = no_kid_keys;
      empty_key = l.empty_secret;
      jwt_validator = some validator;
      client_config = client_config;
    })
  ]
  new key_from issuer none client_config = some (record {
    apikey_from = key_from;
    issuer = issuer;
    kid_map = [];
    no_kid_keys = [];
    empty_key = l.empty_secret;
    jwt_validator = none;
    client_config = client_config;
  })

  -- The keys that a token with this header is tried with, in this order.
  abbrev by_kid : InnerAuthn DecodingKey → Option String → Option DecodingKey
  by_kid self none = none
  by_kid self (some kid) = lookup kid self.kid_map

  unfoldable pub pick_jwtkey_by_jwtheader : InnerAuthn DecodingKey → Header → List DecodingKey
  pick_jwtkey_by_jwtheader self header = elim self.jwt_validator [
    | none ↦ self.empty_key ∷ []
    | some _ ↦ elim (by_kid self header.kid) [
      | some dec_key ↦ dec_key ∷ []
      | none ↦ self.no_kid_keys ++ values self.kid_map
    ]
  ]

  abbrev set_aud : JwtAudConfig → IdpClientConfig → Validation → Validation
  set_aud no_check client validator = record validator { validate_aud = false }
  set_aud client_id client validator = record validator { aud = some (client.id ∷ []) }
  set_aud (audience auds) client validator = record validator { aud = some auds }

  abbrev set_iss : Option (List String) → Validation → Validation
  set_iss none validator = validator
  set_iss (some iss) validator = record validator { iss = some iss }

  unfoldable pub prepare_validator : InnerAuthn DecodingKey → Header → Validation
  prepare_validator self header = elim self.jwt_validator [
    | some config ↦ set_iss config.iss (
        set_aud config.aud self.client_config (record (new_validation header.alg) {
          required_spec_claims = config.required_spec_claims;
          leeway = config.leeway;
          reject_tokens_expiring_in_less_than = config.reject_tokens_expiring_in_less_than;
          validate_exp = config.validate_exp;
          validate_nbf = config.validate_nbf;
        }))
    | none ↦ record (new_validation header.alg) {
      required_spec_claims = [];
      validate_exp = false;
      validate_nbf = false;
      validate_aud = false;
      validate_signature = false;
    }
  ]

  -- One round of `for http_ref in &self.apikey_from`.
  abbrev pub api_key_at : Parts → HttpReference → Option Authentication
  api_key_at target http_ref = elim (resolve parse_query http_ref target) [
    | some apikey_value ↦ some (api_key apikey_value http_ref)
    | none ↦ none
  ]

  unfoldable pub find_api_key : List HttpReference → Parts → Option Authentication
  find_api_key refs target = find_map (api_key_at target) refs

  -- `for key in self.pick_jwtkey_by_jwtheader(&header)`
  unfoldable pub try_keys : String → Validation → List DecodingKey → Option TokenData
  try_keys token validator keys = find_map (λ key. decode token key validator) keys

  -- The arm `("bearer", token)`.
  unfoldable pub check_token : InnerAuthn DecodingKey → String → Result Authentication Error
  check_token self token = do
    header ← ok_or (decode_header token) (bad_request (invalid_token "Invalid token header"))
    found ←
        ok_or
          (try_keys token (prepare_validator self header) (pick_jwtkey_by_jwtheader self header))
          (bad_request (invalid_token "No valid key for jwt token"))
    ok (jwt found)

  unfoldable pub check_authorization :
      InnerAuthn DecodingKey → HeaderValue → Result Authentication Error
  check_authorization self authorization = do
    split ← ok_or authorization.to_str (bad_request (invalid_header_string "authorization"))
    let words = split_whitespace split
    let scheme = to_lowercase (trim (next words))
    if scheme == "bearer"
        then check_token self (trim (next (rest words)))
        else err (bad_request (bearer_token_expected scheme))

  unfoldable pub authenticate : InnerAuthn DecodingKey → Parts → Result Authentication Error
  authenticate self target = elim (find_api_key self.apikey_from target) [
    | some found ↦ ok found
    | none ↦ elim (target.headers "authorization") [
      | some authorization ↦ check_authorization self authorization
      | none ↦ ok no_auth
    ]
  ]
