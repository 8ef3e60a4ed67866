-- ===== src/Server/Oauth/Token.antt =====
-- Where `POST /token` sends a code, and what the two routes make of a redirect URI.
use overlay_mcp.Base.{
  String, ◌≡◌, refl, ap, subst, Option, none, some, Result, ok, err, ok_or, >>=-eq-ok,
}
use overlay_mcp.Core.Errors.{Error, Url, bad_request, invalid_url}
use overlay_mcp.Core.Config.{
  JwtValidatorConfig, IdpClientConfig, JwtVerifierConfig, AuthenticaterJwtConfig, oauth2, oidc,
  oidc_discovery, AuthenticaterConfig,
}
use overlay_mcp.Auth.Authn.{Libraries, InnerAuthn, new}
use overlay_mcp.Auth.Authn.Load.{
  OauthClient, Provider, Idp, configured_validator, load_configured, discover_idp, load_idp,
  with_idp, new_authn,
}
use overlay_mcp.Server.Oauth.{
  OauthLibrary, Authn, Params, TokenBody, authorize, token, token_result, create_oauth_client,
}

abbrev pub configured_client : {Jwk : Type 0} → AuthenticaterJwtConfig Jwk → IdpClientConfig
configured_client (oauth2 _ _ _ _ client) = client
configured_client (oidc _ _ _ _ client) = client
configured_client (oidc_discovery _ _ client) = client

-- The client has the id and the secret of the configuration, and a token endpoint.
abbrev pub IsConfigured : IdpClientConfig → OauthClient → Type 0
IsConfigured config client =
    (client.id ≡ config.id)
    × (client.secret ≡ config.secret)
    × ((token_uri : Url) × (client.token_uri ≡ some token_uri))

pub ok-eq : {A : Type 0} (a b : A) → Path (Result A Error) (ok a) (ok b) → a ≡ b
ok-eq a b h = cc

module _ {Jwk : Type 0} (provider : Provider Jwk) where
  load_configured-IsConfigured :
      (issuer auth_url token_url : Url) (verifier : JwtVerifierConfig Jwk)
      (client : IdpClientConfig) (idp : Idp Jwk)
      → load_configured provider issuer auth_url token_url verifier client ≡ ok idp
      → IsConfigured client idp.oauth_client
  unfolding load_configured
  load_configured-IsConfigured issuer auth_url token_url verifier client idp h =
      let (got, _, e) = >>=-eq-ok (configured_validator provider verifier) _ h in
      subst (λ (idp : Idp Jwk). IsConfigured client idp.oauth_client) (ok-eq _ idp e)
        (refl, refl, (token_url, refl))

  discover_idp-IsConfigured :
      (issuer : String) (verifier : JwtValidatorConfig) (client : IdpClientConfig) (idp : Idp Jwk)
      → discover_idp provider issuer verifier client ≡ ok idp
      → IsConfigured client idp.oauth_client
  unfolding discover_idp
  discover_idp-IsConfigured issuer verifier client idp h =
      let (url, _, a) = >>=-eq-ok (provider.issuer_url issuer) _ h in
      let (metadata, _, b) = >>=-eq-ok (provider.discover url) _ a in
      let (token_endpoint, _, c) = >>=-eq-ok (ok_or metadata.token_endpoint _) _ b in
      let (jwk, _, d) = >>=-eq-ok (provider.get_jwks metadata.jwks_uri) _ c in
      subst (λ (idp : Idp Jwk). IsConfigured client idp.oauth_client) (ok-eq _ idp d)
        (refl, refl, (token_endpoint, refl))

  load_idp-IsConfigured :
      (config : AuthenticaterJwtConfig Jwk) (idp : Idp Jwk)
      → load_idp provider config ≡ ok idp
      → IsConfigured (configured_client config) idp.oauth_client
  unfolding load_idp
  load_idp-IsConfigured (oauth2 issuer auth_url token_url verifier client) idp h =
      load_configured-IsConfigured issuer auth_url token_url verifier client idp h
  load_idp-IsConfigured (oidc issuer auth_url token_url verifier client) idp h =
      load_configured-IsConfigured issuer auth_url token_url verifier client idp h
  load_idp-IsConfigured (oidc_discovery issuer verifier client) idp h =
      discover_idp-IsConfigured issuer verifier client idp h

module _ (libraries : Libraries) (provider : Provider libraries.Jwk) where
  pub client_made :
      (idp : Idp libraries.Jwk) (inner : InnerAuthn libraries.DecodingKey) (client : OauthClient)
      (o : Option (InnerAuthn libraries.DecodingKey))
      → Path
          (Option (Result (InnerAuthn libraries.DecodingKey × OauthClient) Error))
          (elim o [ none ↦ none | some inner ↦ some (ok (inner, idp.oauth_client)) ])
          (some (ok (inner, client)))
      → idp.oauth_client ≡ client
  client_made idp inner client none h = absurd (cc)
  client_made idp inner client (some made) h = ap client_or h
    where
      client_or :
          Option (Result (InnerAuthn libraries.DecodingKey × OauthClient) Error) → OauthClient
      client_or (some (ok (_, client))) = client
      client_or (some (err _)) = client
      client_or none = client

  pub new_authn-IsConfigured :
      (config : AuthenticaterConfig libraries.Jwk) (inner : InnerAuthn libraries.DecodingKey)
      (client : OauthClient)
      → new_authn libraries provider config ≡ some (ok (inner, client))
      → IsConfigured (configured_client config.jwt) client
  unfolding new_authn
  new_authn-IsConfigured config inner client h = go (load_idp provider config.jwt) refl h
    where
      go :
          (r : Result (Idp libraries.Jwk) Error)
          → load_idp provider config.jwt ≡ r
          → with_idp libraries provider config.apikey.key_from r ≡ some (ok (inner, client))
          → IsConfigured (configured_client config.jwt) client
      go (err e) p q = absurd (cc)
      go (ok idp) p q =
          subst (IsConfigured (configured_client config.jwt))
            (client_made idp inner client
              (new libraries config.apikey.key_from idp.issuer idp.jwt_validator idp.client_config)
              q)
            (load_idp-IsConfigured provider config.jwt idp p)

  module _ {W Challenge Exchange Token : Type 0} (l : OauthLibrary W Challenge Exchange Token)
      (exchanges : (client : OauthClient) (code : String) (token_uri : Url)
        → client.token_uri ≡ some token_uri
        → (x : Exchange) × (l.exchange_code client code ≡ ok x)) where
    -- With an authenticator made of a configuration, a redirect URI that oauth2 refuses is answered 400 by
    -- `GET /authorize` and is a panic of `POST /token`. With one that it accepts `POST /token` sends the
    -- code, with the client's verifier and redirect URI, to the token endpoint under the configured id and
    -- secret: it never fails for a missing endpoint, and answers what comes back, or `TokenRequestError`.
    pub token-redirect :
        (config : AuthenticaterConfig libraries.Jwk) (inner : InnerAuthn libraries.DecodingKey)
        (client : OauthClient) (state : String) (query : Params) (body : TokenBody)
        (challenge : Challenge)
        → new_authn libraries provider config ≡ some (ok (inner, client))
        → l.from_value query.code_challenge query.code_challenge_method ≡ some challenge
        → query.redirect_uri ≡ body.redirect_uri
        → (let authn : Authn libraries.DecodingKey = record {
          inner = inner;
          oauth_client = client;
        } in
            IsConfigured (configured_client config.jwt) client
            × ((e : String)
                → l.redirect_url body.redirect_uri ≡ err e
                → (authorize l authn state query ≡ some (err (bad_request (invalid_url e))))
                  × (token l authn body ≡ none))
            × ((redirect_url : Url)
                → l.redirect_url body.redirect_uri ≡ ok redirect_url
                → (x : Exchange) × (l.exchange_code client body.code ≡ ok x)
                  × (token l authn body
                      ≡ some (λ w.
                        token_result (l.request_async x body.code_verifier redirect_url w)))))
    unfolding authorize token create_oauth_client
    token-redirect config inner client state query body challenge h c same =
        let configured = new_authn-IsConfigured config inner client h in
        let (x, e) = exchanges client body.code configured.2.0 configured.2.1 in
        (
          configured,
          λ e r. (rw (c, same, r) refl, rw r refl),
          λ redirect_url r. (x, e, rw (r, e) refl),
        )
