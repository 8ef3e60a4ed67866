-- ===== src/Core/Config.antt =====
-- crates/overlay-mcp-core/src/config/auth.rs and config/upstream.rs: the configuration that the
-- modelled code reads. `HashSet<String>` is a list in any order, a secret is its text.
use overlay_mcp.Base.{String, ℕ, Bool, true, false, Option, none, List, [], ◌∷◌}
use overlay_mcp.Core.Errors.{PointerBuf, Url, JwtContextPointerType}
use overlay_mcp.Core.Models.{HttpReference}

pub record FgaCheckConfig : Type 0 where
  pub group : String
  pub relation : String

pub record ApikeyTupleConfig : Type 0 where
  pub group : String

pub record JwtContext : Type 0 where
  pub relation : String
  pub group : String
  pub path : PointerBuf
  pub type : JwtContextPointerType

pub record JwtTupleConfig : Type 0 where
  pub group : String
  pub claim_path : PointerBuf
  pub context_fields : List JwtContext

pub record AuthorizerFgaConfig : Type 0 where
  pub url : Url
  pub headers : List (String × String)
  pub store : String
  pub check : FgaCheckConfig
  pub apikey : ApikeyTupleConfig
  pub jwt : JwtTupleConfig

pub record WhitelistAndBlacklist : Type 0 where
  pub whitelist : List String
  pub blacklist : List String

pub record JwtWhitelistAndBlacklist : Type 0 where
  pub path : PointerBuf
  pub required : Bool
  pub type : JwtContextPointerType
  pub whitelist : List String
  pub blacklist : List String

pub record AuthorizerConstantConfig : Type 0 where
  pub apikey : Option WhitelistAndBlacklist
  pub jwt : List JwtWhitelistAndBlacklist

pub record IdpClientConfig : Type 0 where
  pub id : String
  pub secret : String
  pub scopes : List String

pub data JwtAudConfig : Type 0 where
  no_check client_id : JwtAudConfig
  audience : List String → JwtAudConfig

pub record JwtValidatorConfig : Type 0 where
  pub required_spec_claims : List String
  pub leeway : ℕ
  pub reject_tokens_expiring_in_less_than : ℕ
  pub validate_exp : Bool
  pub validate_nbf : Bool
  pub aud : JwtAudConfig
  pub iss : Option (List String)

-- `JwtValidatorConfig::default`, with the `default_…` functions that it calls.
unfoldable pub default_validator : JwtValidatorConfig
default_validator = record {
  required_spec_claims = "exp" ∷ [];
  leeway = 60;
  reject_tokens_expiring_in_less_than = 0;
  validate_exp = true;
  validate_nbf = false;
  aud = client_id;
  iss = none;
}

pub record AuthenticaterApikeyConfig : Type 0 where
  pub key_from : List HttpReference

-- `JwkSet` is a list of keys of the type `Jwk`, which the library defines.
module _ (Jwk : Type 0) where
  pub data JwtVerifierConfig : Type 0 where
    embeded_jwk : List Jwk → JwtValidatorConfig → JwtVerifierConfig
    jwk_url : Url → JwtValidatorConfig → JwtVerifierConfig
    no_check : JwtVerifierConfig

  pub data AuthenticaterJwtConfig : Type 0 where
    oauth2 oidc :
        (issuer auth_url token_url : Url)
        → JwtVerifierConfig
        → IdpClientConfig
        → AuthenticaterJwtConfig
    oidc_discovery :
        (issuer : String) → JwtValidatorConfig → IdpClientConfig → AuthenticaterJwtConfig

  pub record AuthenticaterConfig : Type 0 where
    pub apikey : AuthenticaterApikeyConfig
    pub jwt : AuthenticaterJwtConfig

  pub data AuthConfig : Type 0 where
    open_fga : AuthenticaterConfig → AuthorizerFgaConfig → AuthConfig
    static : AuthenticaterConfig → AuthorizerConstantConfig → AuthConfig

  unfoldable pub get_authenticater : AuthConfig → AuthenticaterConfig
  get_authenticater (open_fga authn _) = authn
  get_authenticater (static authn _) = authn

pub record StaticUpstream : Type 0 where
  pub urls : List Url

pub record DiscoveryUpstream : Type 0 where
  pub discovery : Url

pub data UpstreamConfig : Type 0 where
  static : StaticUpstream → UpstreamConfig
  discovery : DiscoveryUpstream → UpstreamConfig
