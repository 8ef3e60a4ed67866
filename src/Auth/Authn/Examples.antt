-- ===== src/Auth/Authn/Examples.antt =====
-- The theorems about authn_basic.rs at a concrete request, over libraries that decode one token.
use overlay_mcp.Base.{
  String, ℕ, ◌==◌, ◌≡◌, refl, ◌↔◌, true, false, Option, none, some, List, [], ◌∷◌, nat_eq, lookup,
  split_whitespace, trim, to_lowercase, find_map, if◌then◌else◌, ok, err, insert,
}
use overlay_mcp.Core.Json.{null}
use overlay_mcp.Core.Models.{header, Header, TokenData, jwt}
use overlay_mcp.Core.Config.{
  default_validator, IdpClientConfig, AuthenticaterConfig, oauth2, embeded_jwk,
}
use overlay_mcp.Http.Request.{Parts, HeaderValue, resolve}
use overlay_mcp.Auth.Authn.{
  Libraries, InnerAuthn, load_keys, find_api_key, try_keys, check_token, check_authorization,
  pick_jwtkey_by_jwtheader, prepare_validator, authenticate,
}
use overlay_mcp.Auth.Authn.Bearer.{Verified, authenticate-jwt}
use overlay_mcp.Core.Errors.{no_token_endpoint}
use overlay_mcp.Auth.Authn.Load.{
  OauthClient, Provider, IsUnchecked, new_authn, load_idp, load_configured, load_validator,
}
use overlay_mcp.Auth.Authn.Signature.{new_authn-signature}

abbrev pub token_header : Header
token_header = record { alg = "RS256"; kid = some "k1" }

abbrev pub decoded : TokenData
decoded = record { header = token_header; claims = null }

-- Key 7 decodes every token.
abbrev pub one_key : Libraries
one_key = record {
  Jwk = Option String × ℕ;
  DecodingKey = ℕ;
  key_id = λ j. j.0;
  from_jwk = λ j. some j.1;
  empty_secret = 0;
  decode_header = λ token. some token_header;
  decode = λ token key v. if nat_eq key 7 then some decoded else none;
  new_validation = λ alg. record {
    algorithm = alg;
    required_spec_claims = "exp" ∷ [];
    leeway = 60;
    reject_tokens_expiring_in_less_than = 0;
    validate_exp = true;
    validate_nbf = false;
    validate_aud = true;
    aud = none;
    iss = none;
    validate_signature = true;
  };
  parse_query = λ q. [];
}

abbrev pub client : IdpClientConfig
client = record { id = "c"; secret = "s"; scopes = [] }

abbrev pub jwks : List (Option String × ℕ)
jwks = (some "k1", 6) ∷ (none, 5) ∷ (some "k1", 7) ∷ []

abbrev pub authn : InnerAuthn ℕ
authn = record {
  apikey_from = header "x-api-key" ∷ [];
  issuer = "https://idp";
  kid_map = ("k1", 7) ∷ [];
  no_kid_keys = 5 ∷ [];
  empty_key = 0;
  jwt_validator = some default_validator;
  client_config = client;
}

abbrev text : String → HeaderValue
text s = record { to_str = some s }

abbrev with_token : Parts
with_token = record {
  headers = λ name. if name == "authorization" then some (text "BEARER abc") else none;
  query = none;
}

abbrev with_key : Parts
with_key = record { headers = λ name. some (text "secret"); query = none }

abbrev with_nothing : Parts
with_nothing = record { headers = λ name. none; query = none }

authenticate-jwt_example :
    (authenticate one_key authn with_token ≡ ok (jwt decoded))
    ↔ Verified one_key authn with_token decoded
authenticate-jwt_example = authenticate-jwt one_key authn with_token decoded

-- A provider that answers nothing.
abbrev pub silent : Provider (Option String × ℕ)
silent = record {
  issuer_url = λ issuer. err no_token_endpoint;
  discover = λ url. err no_token_endpoint;
  get_jwks = λ url. err no_token_endpoint;
}

abbrev pub configured : AuthenticaterConfig (Option String × ℕ)
configured = record {
  apikey = record { key_from = header "x-api-key" ∷ [] };
  jwt =
      oauth2 "https://idp" "https://idp/auth" "https://idp/token"
        (embeded_jwk jwks default_validator) client;
}

abbrev pub idp_client : OauthClient
idp_client = record {
  id = "c";
  secret = "s";
  auth_uri = "https://idp/auth";
  token_uri = some "https://idp/token";
}

pub configured_is_authn : new_authn one_key silent configured ≡ some (ok (authn, idp_client))
unfolding new_authn load_idp load_configured load_validator overlay_mcp.Auth.Authn.new load_keys
    insert
configured_is_authn = refl

new_authn-signature_example :
    ((prepare_validator one_key authn token_header).validate_signature ≡ false)
    ↔ IsUnchecked configured.jwt
new_authn-signature_example =
    new_authn-signature one_key silent configured authn idp_client token_header refl
      configured_is_authn

accepted_token : authenticate one_key authn with_token ≡ ok (jwt decoded)
unfolding authenticate find_api_key try_keys check_token check_authorization
    pick_jwtkey_by_jwtheader prepare_validator find_map lookup resolve split_whitespace trim
    to_lowercase
accepted_token = refl
