-- ===== src/Auth/Authn/Signature.antt =====
-- Whether an authenticator checks the signatures of tokens, by its configuration.
use overlay_mcp.Base.{
  String, ◌≡◌, refl, sym, ap, subst, ◌↔◌, true, false, Option, none, some, List, [], Result, ok,
  err, ok_or, >>=-eq-ok,
}
use overlay_mcp.Core.Errors.{Error, Url, no_token_endpoint}
use overlay_mcp.Core.Models.{Header, HttpReference}
use overlay_mcp.Core.Config.{
  JwtValidatorConfig, IdpClientConfig, JwtVerifierConfig, embeded_jwk, jwk_url,
  AuthenticaterJwtConfig, oauth2, oidc, oidc_discovery, AuthenticaterConfig,
}
use overlay_mcp.Auth.Authn.{Libraries, InnerAuthn, load_keys, new, prepare_validator}
use overlay_mcp.Auth.Authn.Load.{
  OauthClient, Provider, Idp, configured_validator, load_validator, load_configured, discover_idp,
  load_idp, with_idp, new_authn, IsUnchecked,
}
use overlay_mcp.Auth.Authn.Keys.{prepare_validator-signature}

module _ (l : Libraries) (provider : Provider l.Jwk) where
  open l use {Jwk, DecodingKey, new_validation}

  of_some : {A : Type 0} (a b : A) → some a ≡ some b → a ≡ b
  of_some a b h = cc

  new-jwt_validator :
      (refs : List HttpReference) (issuer : Url) (v : Option (List Jwk × JwtValidatorConfig))
      (client : IdpClientConfig) (self : InnerAuthn DecodingKey)
      → new l refs issuer v client ≡ some self
      → (self.jwt_validator ≡ none) ↔ (v ≡ none)
  unfolding new
  new-jwt_validator refs issuer none client self h =
      (λ _. refl, λ _. sym (ap (λ x. x.jwt_validator) (of_some _ self h)))
  new-jwt_validator refs issuer (some (jwk, validator)) client self h =
      go (load_keys l jwk ([], [])) h
    where
      go :
          (o : Option (List (String × DecodingKey) × List DecodingKey))
          → Path
              (Option (InnerAuthn DecodingKey))
              (elim o [
                | none ↦ none
                | some (kid_map, no_kid_keys) ↦ some (record {
                  apikey_from = refs;
                  issuer = issuer;
                  kid_map = kid_map;
                  no_kid_keys = no_kid_keys;
                  empty_key = l.empty_secret;
                  jwt_validator = some validator;
                  client_config = client;
                })
              ])
              (some self)
          → (self.jwt_validator ≡ none)
            ↔ (Path (Option (List Jwk × JwtValidatorConfig)) (some (jwk, validator)) none)
      go none e = absurd (cc)
      go (some _) e =
          let set : some validator ≡ self.jwt_validator =
            ap (λ x. x.jwt_validator) (of_some _ self e) in
          (λ n. absurd (cc), λ n. absurd (cc))

  verifier-unchecked :
      (verifier : JwtVerifierConfig Jwk) (v : Option (List Jwk × JwtValidatorConfig))
      → configured_validator provider verifier ≡ ok v
      → (v ≡ none) ↔ (verifier ≡ JwtVerifierConfig.no_check)
  unfolding load_validator
  verifier-unchecked (embeded_jwk jwk validator) v h = (λ e. absurd (cc), λ e. absurd (cc))
  verifier-unchecked (jwk_url url validator) v h =
      let (jwks, p, q) =
        >>=-eq-ok (provider.get_jwks url) (λ jwks. ok (some (jwks, validator))) h in
      (λ e. absurd (cc), λ e. absurd (cc))
  verifier-unchecked JwtVerifierConfig.no_check v h = (λ e. refl, λ e. cc)

  validator_of :
      Option (List Jwk × JwtValidatorConfig)
      → Result (Idp Jwk) Error
      → Option (List Jwk × JwtValidatorConfig)
  validator_of v (ok idp) = idp.jwt_validator
  validator_of v (err _) = v

  configured-unchecked :
      (issuer auth_url token_url : Url) (verifier : JwtVerifierConfig Jwk)
      (client : IdpClientConfig) (idp : Idp Jwk)
      → load_configured provider issuer auth_url token_url verifier client ≡ ok idp
      → (idp.jwt_validator ≡ none) ↔ (verifier ≡ JwtVerifierConfig.no_check)
  unfolding load_configured validator_of
  configured-unchecked issuer auth_url token_url verifier client idp h =
      let (v, p, q) = >>=-eq-ok (configured_validator provider verifier) _ h in
      let same : v ≡ idp.jwt_validator = ap (validator_of v) q in
      subst (λ x. (x ≡ none) ↔ (verifier ≡ JwtVerifierConfig.no_check)) same
        (verifier-unchecked verifier v p)

  discovered-checked :
      (issuer : String) (validator : JwtValidatorConfig) (client : IdpClientConfig) (idp : Idp Jwk)
      → discover_idp provider issuer validator client ≡ ok idp
      → ¬ (idp.jwt_validator ≡ none)
  unfolding discover_idp validator_of
  discovered-checked issuer validator client idp h =
      let (url, _, p) = >>=-eq-ok (provider.issuer_url issuer) _ h in
      let (metadata, _, q) = >>=-eq-ok (provider.discover url) _ p in
      let (token, _, r) = >>=-eq-ok (ok_or metadata.token_endpoint no_token_endpoint) _ q in
      let (jwk, _, t) = >>=-eq-ok (provider.get_jwks metadata.jwks_uri) _ r in
      let set : some (jwk, validator) ≡ idp.jwt_validator =
        ap (validator_of (some (jwk, validator))) t in
      λ n. absurd (cc)

  load_idp-IsUnchecked :
      (config : AuthenticaterJwtConfig Jwk) (idp : Idp Jwk)
      → load_idp provider config ≡ ok idp
      → (idp.jwt_validator ≡ none) ↔ IsUnchecked config
  unfolding load_idp
  load_idp-IsUnchecked (oauth2 issuer auth_url token_url verifier client) idp h =
      configured-unchecked issuer auth_url token_url verifier client idp h
  load_idp-IsUnchecked (oidc issuer auth_url token_url verifier client) idp h =
      configured-unchecked issuer auth_url token_url verifier client idp h
  load_idp-IsUnchecked (oidc_discovery issuer validator client) idp h =
      (λ n. absurd (discovered-checked issuer validator client idp h n), λ n. absurd n)

  inner_made :
      (idp : Idp Jwk) (self : InnerAuthn DecodingKey) (client : OauthClient)
      (o : Option (InnerAuthn DecodingKey))
      → Path
          (Option (Result (InnerAuthn DecodingKey × OauthClient) Error))
          (elim o [ none ↦ none | some inner ↦ some (ok (inner, idp.oauth_client)) ])
          (some (ok (self, client)))
      → o ≡ some self
  inner_made idp self client none h = absurd (cc)
  inner_made idp self client (some inner) h = ap some (ap (inner_or inner) h)
    where
      inner_or :
          InnerAuthn DecodingKey
          → Option (Result (InnerAuthn DecodingKey × OauthClient) Error)
          → InnerAuthn DecodingKey
      inner_or x (some (ok (self, _))) = self
      inner_or x (some (err _)) = x
      inner_or x none = x

  -- Where the library checks signatures by default, an authenticator that was made of a configuration leaves the
  -- signature of a token unchecked exactly where that configuration's verifier is `NoCheck`, which one that
  -- discovers its provider cannot have.
  pub new_authn-signature :
      (config : AuthenticaterConfig Jwk) (self : InnerAuthn DecodingKey) (client : OauthClient)
      (header : Header)
      → (new_validation header.alg).validate_signature ≡ true
      → new_authn l provider config ≡ some (ok (self, client))
      → ((prepare_validator l self header).validate_signature ≡ false) ↔ IsUnchecked config.jwt
  unfolding new_authn
  new_authn-signature config self client header on h =
      let refs = config.apikey.key_from in
      let (to, from) = go (load_idp provider config.jwt) refl h in
      let (off, unset) = prepare_validator-signature l self header on in
      (λ x. to (off x), λ x. unset (from x))
    where
      go :
          (r : Result (Idp Jwk) Error)
          → load_idp provider config.jwt ≡ r
          → with_idp l provider config.apikey.key_from r ≡ some (ok (self, client))
          → (self.jwt_validator ≡ none) ↔ IsUnchecked config.jwt
      go (err e) p q = absurd (cc)
      go (ok idp) p q =
          let built =
            inner_made idp self client
              (new l config.apikey.key_from idp.issuer idp.jwt_validator idp.client_config) q in
          let (a, b) =
            new-jwt_validator config.apikey.key_from idp.issuer idp.jwt_validator idp.client_config
              self built in
          let (c, d) = load_idp-IsUnchecked config.jwt idp p in (λ x. c (a x), λ x. b (d x))
