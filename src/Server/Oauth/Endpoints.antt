-- ===== src/Server/Oauth/Endpoints.antt =====
-- crates/overlay-mcp-auth/src/authn_basic.rs: where `load_idp` has the endpoints of the OAuth client from.
use overlay_mcp.Base.{
  String, ◌≡◌, refl, sym, ap, ◌∙◌, subst, some, Result, ok, err, ok_or, >>=-eq-ok, ok_or-eq-ok,
}
use overlay_mcp.Core.Errors.{Error, Url, no_token_endpoint}
use overlay_mcp.Core.Config.{
  JwtValidatorConfig, IdpClientConfig, JwtVerifierConfig, AuthenticaterJwtConfig, oauth2, oidc,
  oidc_discovery, AuthenticaterConfig,
}
use overlay_mcp.Auth.Authn.{Libraries, InnerAuthn, new}
use overlay_mcp.Auth.Authn.Load.{
  OauthClient, ProviderMetadata, Provider, Idp, configured_validator, load_configured, discover_idp,
  load_idp, with_idp, new_authn,
}
use overlay_mcp.Server.Oauth.Token.{client_made, ok-eq}

module _ {Jwk : Type 0} (provider : Provider Jwk) where
  -- The client asks the endpoints that the configuration names, or those that the discovery of its issuer
  -- finds.
  abbrev pub HasEndpoints : AuthenticaterJwtConfig Jwk → OauthClient → Type 0
  HasEndpoints (oauth2 issuer auth_url token_url verifier _) client =
      (client.auth_uri ≡ auth_url) × (client.token_uri ≡ some token_url)
  HasEndpoints (oidc issuer auth_url token_url verifier _) client =
      (client.auth_uri ≡ auth_url) × (client.token_uri ≡ some token_url)
  HasEndpoints (oidc_discovery issuer verifier _) client =
      (url : Url) × (metadata : ProviderMetadata) × (provider.issuer_url issuer ≡ ok url)
      × (provider.discover url ≡ ok metadata)
      × (client.auth_uri ≡ metadata.authorization_endpoint)
      × (client.token_uri ≡ metadata.token_endpoint)

  load_configured-endpoints :
      (issuer auth_url token_url : Url) (verifier : JwtVerifierConfig Jwk)
      (client : IdpClientConfig) (idp : Idp Jwk)
      → load_configured provider issuer auth_url token_url verifier client ≡ ok idp
      → (idp.oauth_client.auth_uri ≡ auth_url) × (idp.oauth_client.token_uri ≡ some token_url)
  unfolding load_configured
  load_configured-endpoints issuer auth_url token_url verifier client idp h =
      let (got, _, e) = >>=-eq-ok (configured_validator provider verifier) _ h in
      let same = ap (λ (x : Idp Jwk). x.oauth_client) (ok-eq _ idp e) in
      (sym (ap (λ c. c.auth_uri) same), sym (ap (λ c. c.token_uri) same))

  discover_idp-HasEndpoints :
      (issuer : String) (verifier : JwtValidatorConfig) (client : IdpClientConfig) (idp : Idp Jwk)
      → discover_idp provider issuer verifier client ≡ ok idp
      → HasEndpoints (oidc_discovery issuer verifier client) idp.oauth_client
  unfolding discover_idp
  discover_idp-HasEndpoints issuer verifier client idp h =
      let (url, p, a) = >>=-eq-ok (provider.issuer_url issuer) _ h in
      let (metadata, q, b) = >>=-eq-ok (provider.discover url) _ a in
      let (token_endpoint, t, c) = >>=-eq-ok (ok_or metadata.token_endpoint _) _ b in
      let (jwk, _, d) = >>=-eq-ok (provider.get_jwks metadata.jwks_uri) _ c in
      let same = ap (λ (x : Idp Jwk). x.oauth_client) (ok-eq _ idp d) in
      (
        url,
        metadata,
        p,
        q,
        sym (ap (λ c. c.auth_uri) same),
        sym (ap (λ c. c.token_uri) same)
            ∙ sym (ok_or-eq-ok metadata.token_endpoint no_token_endpoint t),
      )

  load_idp-HasEndpoints :
      (config : AuthenticaterJwtConfig Jwk) (idp : Idp Jwk)
      → load_idp provider config ≡ ok idp
      → HasEndpoints config idp.oauth_client
  unfolding load_idp
  load_idp-HasEndpoints (oauth2 issuer auth_url token_url verifier client) idp h =
      load_configured-endpoints issuer auth_url token_url verifier client idp h
  load_idp-HasEndpoints (oidc issuer auth_url token_url verifier client) idp h =
      load_configured-endpoints issuer auth_url token_url verifier client idp h
  load_idp-HasEndpoints (oidc_discovery issuer verifier client) idp h =
      discover_idp-HasEndpoints issuer verifier client idp h

module _ (libraries : Libraries) (provider : Provider libraries.Jwk) where
  pub new_authn-HasEndpoints :
      (config : AuthenticaterConfig libraries.Jwk) (inner : InnerAuthn libraries.DecodingKey)
      (client : OauthClient)
      → new_authn libraries provider config ≡ some (ok (inner, client))
      → HasEndpoints provider config.jwt client
  unfolding new_authn
  new_authn-HasEndpoints config inner client h = go (load_idp provider config.jwt) refl h
    where
      go :
          (r : Result (Idp libraries.Jwk) Error)
          → load_idp provider config.jwt ≡ r
          → with_idp libraries provider config.apikey.key_from r ≡ some (ok (inner, client))
          → HasEndpoints provider config.jwt client
      go (err e) p q = absurd (cc)
      go (ok idp) p q =
          subst (HasEndpoints provider config.jwt)
            (client_made libraries provider idp inner client
              (new libraries config.apikey.key_from idp.issuer idp.jwt_validator idp.client_config)
              q)
            (load_idp-HasEndpoints provider config.jwt idp p)
