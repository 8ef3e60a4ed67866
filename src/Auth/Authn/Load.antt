-- ===== src/Auth/Authn/Load.antt =====
-- `AuthnBasic::new`, with `load_idp` and `load_validator`: what it asks of a provider over HTTP is the
-- record `Provider`.
use overlay_mcp.Base.{String, ◌≡◌, Option, none, some, List, Result, ok, err, ok_or, ◌>>=◌}
use overlay_mcp.Core.Errors.{Error, Url, no_token_endpoint}
use overlay_mcp.Core.Models.{HttpReference}
use overlay_mcp.Core.Config.{
  JwtValidatorConfig, IdpClientConfig, JwtVerifierConfig, embeded_jwk, jwk_url,
  AuthenticaterJwtConfig, oauth2, oidc, oidc_discovery, AuthenticaterConfig,
}
use overlay_mcp.Auth.Authn.{Libraries, InnerAuthn, new}

-- `oauth2::basic::BasicClient`: what the program sets.
pub record OauthClient : Type 0 where
  pub id : String
  pub secret : String
  pub auth_uri : Url
  pub token_uri : Option Url

-- `CoreProviderMetadata`: what the program reads.
pub record ProviderMetadata : Type 0 where
  pub authorization_endpoint : Url
  pub token_endpoint : Option Url
  pub jwks_uri : Url

-- `IssuerUrl::new`, the discovery, and a `GET` of a key set.
pub record Provider (Jwk : Type 0) : Type 0 where
  pub issuer_url : String → Result Url Error
  pub discover : Url → Result ProviderMetadata Error
  pub get_jwks : Url → Result (List Jwk) Error

-- What `load_idp` returns.
pub record Idp (Jwk : Type 0) : Type 0 where
  pub issuer : Url
  pub oauth_client : OauthClient
  pub jwt_validator : Option (List Jwk × JwtValidatorConfig)
  pub client_config : IdpClientConfig

module _ {Jwk : Type 0} (provider : Provider Jwk) where
  unfoldable pub load_validator :
      JwtVerifierConfig Jwk → Result (Option (List Jwk × JwtValidatorConfig)) Error
  load_validator (embeded_jwk jwk validator) = ok (some (jwk, validator))
  load_validator (jwk_url url validator) =
      provider.get_jwks url >>= λ jwks. ok (some (jwks, validator))
  load_validator JwtVerifierConfig.no_check = ok none

  abbrev pub client_of : IdpClientConfig → (auth_uri : Url) (token_uri : Option Url) → OauthClient
  client_of client auth_uri token_uri = record {
    id = client.id;
    secret = client.secret;
    auth_uri = auth_uri;
    token_uri = token_uri;
  }

  -- `match verifier` in the arm of `Oauth2` and `Oidc`.
  abbrev pub configured_validator :
      JwtVerifierConfig Jwk → Result (Option (List Jwk × JwtValidatorConfig)) Error
  unfolding load_validator
  configured_validator (embeded_jwk jwk validator) = load_validator (embeded_jwk jwk validator)
  configured_validator (jwk_url url validator) = load_validator (jwk_url url validator)
  configured_validator JwtVerifierConfig.no_check = ok none

  unfoldable pub load_configured :
      (issuer auth_url token_url : Url)
      → JwtVerifierConfig Jwk
      → IdpClientConfig
      → Result (Idp Jwk) Error
  load_configured issuer auth_url token_url verifier client =
      configured_validator verifier >>= λ jwt_validator. ok (record {
        issuer = issuer;
        oauth_client = client_of client auth_url (some token_url);
        jwt_validator = jwt_validator;
        client_config = client;
      })

  unfoldable pub discover_idp :
      (issuer : String) → JwtValidatorConfig → IdpClientConfig → Result (Idp Jwk) Error
  discover_idp issuer verifier client = do
    issuer_url ← provider.issuer_url issuer
    metadata ← provider.discover issuer_url
    token_endpoint ← ok_or metadata.token_endpoint no_token_endpoint
    jwk ← provider.get_jwks metadata.jwks_uri
    ok (record {
      issuer = issuer_url;
      oauth_client = client_of client metadata.authorization_endpoint (some token_endpoint);
      jwt_validator = some (jwk, verifier);
      client_config = client;
    })

  unfoldable pub load_idp : AuthenticaterJwtConfig Jwk → Result (Idp Jwk) Error
  load_idp (oauth2 issuer auth_url token_url verifier client) =
      load_configured issuer auth_url token_url verifier client
  load_idp (oidc issuer auth_url token_url verifier client) =
      load_configured issuer auth_url token_url verifier client
  load_idp (oidc_discovery issuer verifier client) = discover_idp issuer verifier client

module _ (l : Libraries) (provider : Provider l.Jwk) where
  abbrev pub with_idp :
      List HttpReference
      → Result (Idp l.Jwk) Error
      → Option (Result (InnerAuthn l.DecodingKey × OauthClient) Error)
  with_idp key_from (err e) = some (err e)
  with_idp key_from (ok idp) =
      elim (new l key_from idp.issuer idp.jwt_validator idp.client_config) [
        | none ↦ none
        | some inner ↦ some (ok (inner, idp.oauth_client))
      ]

  -- `AuthnBasic::new`; `none` is its panic on a key that jsonwebtoken refuses.
  unfoldable pub new_authn :
      AuthenticaterConfig l.Jwk → Option (Result (InnerAuthn l.DecodingKey × OauthClient) Error)
  new_authn config = with_idp config.apikey.key_from (load_idp provider config.jwt)

-- The configuration says that tokens are not to be checked.
abbrev pub IsUnchecked : {Jwk : Type 0} → AuthenticaterJwtConfig Jwk → Type 0
IsUnchecked (oauth2 _ _ _ verifier _) = verifier ≡ JwtVerifierConfig.no_check
IsUnchecked (oidc _ _ _ verifier _) = verifier ≡ JwtVerifierConfig.no_check
IsUnchecked (oidc_discovery _ _ _) = ⊥
