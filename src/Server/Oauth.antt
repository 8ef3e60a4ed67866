-- ===== src/Server/Oauth.antt =====
-- The routes of crates/overlay-mcp-svr/src/router that stand for an OAuth provider: authorize.rs, token.rs,
-- register.rs and well_known/oauth_authorization_server.rs. `none` is a panic. What oauth2, serde_json and url do
-- is the records below; the clock, the random letters and the ids are parameters.
pub mod Token
pub mod Endpoints
pub mod Examples
use overlay_mcp.Base.{
  String, ℕ, ◌+◌, Option, none, some, List, [], ◌∷◌, map, take, Result, ok, err, map_err,
}
use overlay_mcp.Core.Errors.{
  Error, Url, bad_request, invalid_url, fatal, token_request_error, configuration_error,
}
use overlay_mcp.Core.Action.{Action, lift, ◌>>=◌}
use overlay_mcp.Core.Config.{IdpClientConfig}
use overlay_mcp.Auth.Authn.{InnerAuthn}
use overlay_mcp.Auth.Authn.Load.{OauthClient}

-- `Challenge` is `PkceCodeChallenge`, and `Exchange` a request of a token. `client` is a `reqwest::Client`.
pub record OauthLibrary (W Challenge Exchange Token : Type 0) : Type 0 where
  pub redirect_url : String → Result Url String
  pub from_value : (code_challenge code_challenge_method : String) → Option Challenge
  pub authorize_url :
      OauthClient
      → (redirect_uri : Url) → (state : String) → Challenge
      → (scopes : List String) → Url
  pub exchange_code : OauthClient → (code : String) → Result Exchange String
  pub request_async :
      Exchange → (verifier : String) → (redirect_uri : Url) → W → Result Token String × W

-- An `Authn`: the authenticator, and the client that it was made with.
pub record Authn (DecodingKey : Type 0) : Type 0 where
  pub inner : InnerAuthn DecodingKey
  pub oauth_client : OauthClient

module _ {DecodingKey : Type 0} where
  unfoldable pub create_oauth_client : Authn DecodingKey → OauthClient
  create_oauth_client self = self.oauth_client

  unfoldable pub issuer_url : Authn DecodingKey → Url
  issuer_url self = self.inner.issuer

  -- A `Scope` is its text.
  unfoldable pub scopes : Authn DecodingKey → List String
  scopes self = self.inner.client_config.scopes

pub record Params : Type 0 where
  pub response_type : String
  pub client_id : String
  pub code_challenge : String
  pub code_challenge_method : String
  pub redirect_uri : String

pub record TokenBody : Type 0 where
  pub grant_type : String
  pub client_id : String
  pub code : String
  pub code_verifier : String
  pub redirect_uri : String

abbrev pub token_result : {W Token : Type 0} → Result Token String × W → Result Token Error × W
token_result (ok token, w) = (ok token, w)
token_result (err _, w) = (err (fatal token_request_error), w)

module _ {W Challenge Exchange Token : Type 0} (l : OauthLibrary W Challenge Exchange Token) where
  abbrev pub exchange : (code_verifier : String) → (redirect_uri : Url) → Exchange → Action W Token
  exchange code_verifier redirect_uri request w =
      token_result (l.request_async request code_verifier redirect_uri w)

module _ {W Challenge Exchange Token DecodingKey : Type 0}
    (l : OauthLibrary W Challenge Exchange Token) where
  abbrev pub redirect_to :
      Authn DecodingKey → (state : String) → Challenge → Result Url String → Result Url Error
  unfolding create_oauth_client scopes
  redirect_to authn state challenge (err e) = err (bad_request (invalid_url e))
  redirect_to authn state challenge (ok redirect_uri) =
      ok (l.authorize_url (create_oauth_client authn) redirect_uri state challenge (scopes authn))

  abbrev pub challenged :
      Authn DecodingKey
      → (state : String) → Result Url String
      → Option Challenge
      → Option (Result Url Error)
  unfolding redirect_to
  challenged authn state redirect_uri none = none
  challenged authn state redirect_uri (some challenge) =
      some (redirect_to authn state challenge redirect_uri)

  -- `GET /authorize`: the URL that the client is sent to. `state` is `CsrfToken::new_random`'s.
  unfoldable pub authorize :
      Authn DecodingKey → (state : String) → Params → Option (Result Url Error)
  unfolding challenged
  authorize authn state query =
      challenged authn state (l.redirect_url query.redirect_uri)
        (l.from_value query.code_challenge query.code_challenge_method)

  abbrev pub redeem : Authn DecodingKey → TokenBody → Result Url String → Option (Action W Token)
  unfolding create_oauth_client
  redeem authn query (err _) = none
  redeem authn query (ok redirect_url) = some (
      lift (map_err configuration_error (l.exchange_code (create_oauth_client authn) query.code))
      >>= exchange l query.code_verifier redirect_url)

  -- `POST /token`
  unfoldable pub token : Authn DecodingKey → TokenBody → Option (Action W Token)
  unfolding redeem
  token authn query = redeem authn query (l.redirect_url query.redirect_uri)

pub record RegisterBody : Type 0 where
  pub redirect_uris : List String
  pub token_endpoint_auth_method : String
  pub grant_types : List String
  pub response_types : List String
  pub client_name : String
  pub client_uri : String

pub record RegisterResponse : Type 0 where
  pub client_id : String
  pub client_secret : String
  pub redirect_uris : List String
  pub client_id_issued_at : ℕ
  pub client_secret_expires_at : ℕ

-- `POST /register`: `now` in seconds since 1970, and the letters that `rand` gives; `from_utf8_lossy` is std's.
unfoldable pub register :
    (from_utf8_lossy : List ℕ → String) (uuid : String) (letters : List ℕ) (now : ℕ)
    → RegisterBody
    → RegisterResponse
register from_utf8_lossy uuid letters now value = record {
  client_id = uuid;
  client_secret = from_utf8_lossy (take 32 letters);
  redirect_uris = value.redirect_uris;
  client_id_issued_at = now;
  client_secret_expires_at = now + 3600;
}

-- Operations of `url::Url`; `join` is `none` where it fails.
pub record UrlLibrary : Type 0 where
  pub set_path : String → Url → Url
  pub set_query : Option String → Url → Url
  pub set_fragment : Option String → Url → Url
  pub join : Url → String → Option Url

pub record Metadata : Type 0 where
  pub issuer : String
  pub authorization_endpoint : String
  pub response_types_supported : List String
  pub code_challenge_methods_supported : List String
  pub token_endpoint : String
  pub token_endpoint_auth_methods_supported : List String
  pub grant_types_supported : List String
  pub registration_endpoint : String

abbrev pub with_endpoints : (issuer : Url) → Option Url → Option Url → Option Url → Option Metadata
with_endpoints issuer (some authorization_endpoint) (some token_endpoint)
      (some registration_endpoint) =
    some (record {
      issuer = issuer;
      authorization_endpoint = authorization_endpoint;
      response_types_supported = "code" ∷ [];
      code_challenge_methods_supported = "S256" ∷ [];
      token_endpoint = token_endpoint;
      token_endpoint_auth_methods_supported = "client_secret_basic" ∷ [];
      grant_types_supported = "authorization_code" ∷ [];
      registration_endpoint = registration_endpoint;
    })
with_endpoints issuer _ _ _ = none

-- `GET /.well-known/oauth-authorization-server`
unfoldable pub oauth_authorization_server :
    {DecodingKey : Type 0} (u : UrlLibrary) → (hostname : Url) → Authn DecodingKey → Option Metadata
unfolding issuer_url
oauth_authorization_server u hostname authn =
    let host = u.set_fragment none (u.set_query none (u.set_path "/" hostname)) in
    with_endpoints (issuer_url authn) (u.join host "/authorize") (u.join host "/token")
      (u.join host "/register")
