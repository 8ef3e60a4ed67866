-- ===== src/Server/Oauth/Examples.antt =====
-- The theorem about the OAuth routes over a provider that records what it is asked, and tests.
use overlay_mcp.Base.{
  String, ℕ, ◌==◌, ◌<>◌, ◌≡◌, refl, Option, none, some, List, [], ◌∷◌, ok, err, if◌then◌else◌,
}
use overlay_mcp.Core.Errors.{Url, bad_request, invalid_url}
use overlay_mcp.Auth.Authn.Examples.{
  one_key, silent, configured, authn, idp_client, client, configured_is_authn,
}
use overlay_mcp.Auth.Authn.Load.{OauthClient}
use overlay_mcp.Server.Oauth
use overlay_mcp.Server.Oauth.{
  OauthLibrary, Authn, Params, TokenBody, authorize, token, token_result, UrlLibrary,
  oauth_authorization_server, register,
}
use overlay_mcp.Server.Oauth.Token.{IsConfigured, token-redirect}

-- What the token endpoint is sent.
abbrev Sent : Type 0
Sent = List (OauthClient × String)

abbrev oauth : OauthLibrary Sent (String × String) (OauthClient × String) String
oauth = record {
  redirect_url = λ s. if s == "bad" then err "no base" else ok s;
  from_value = λ challenge method. some (challenge, method);
  authorize_url = λ client redirect_uri state challenge scopes. client.auth_uri <> redirect_uri;
  exchange_code =
      λ client code. elim client.token_uri [ none ↦ err "token" | some _ ↦ ok (client, code) ];
  request_async = λ request verifier redirect_uri sent. (ok "token", request ∷ sent);
}

exchanges :
    (client : OauthClient) (code : String) (token_uri : Url)
    → client.token_uri ≡ some token_uri
    → (x : OauthClient × String) × (oauth.exchange_code client code ≡ ok x)
exchanges sender code token_uri e = ((sender, code), simp (e) refl)

abbrev query : Params
query = record {
  response_type = "code";
  client_id = "c";
  code_challenge = "abc";
  code_challenge_method = "S256";
  redirect_uri = "bad";
}

abbrev body : TokenBody
body = record {
  grant_type = "authorization_code";
  client_id = "c";
  code = "x";
  code_verifier = "v";
  redirect_uri = "bad";
}

abbrev made : Authn ℕ
made = record { inner = authn; oauth_client = idp_client }

token-redirect_example :
    IsConfigured client idp_client
    × ((e : String)
        → oauth.redirect_url "bad" ≡ err e
        → (authorize oauth made "s" query ≡ some (err (bad_request (invalid_url e))))
          × (token oauth made body ≡ none))
    × ((redirect_url : Url)
        → oauth.redirect_url "bad" ≡ ok redirect_url
        → (x : OauthClient × String) × (oauth.exchange_code idp_client "x" ≡ ok x)
          × (token oauth made body
              ≡ some (λ w. token_result (oauth.request_async x "v" redirect_url w))))
token-redirect_example =
    token-redirect one_key silent oauth exchanges configured authn idp_client "s" query body
      ("abc", "S256") configured_is_authn refl refl

abbrev urls : UrlLibrary
urls = record {
  set_path = λ path url. url;
  set_query = λ query url. url;
  set_fragment = λ fragment url. url;
  join = λ url path. some (url <> path);
}

abbrev registration : Oauth.RegisterBody
registration = record {
  redirect_uris = "http://client/cb" ∷ [];
  token_endpoint_auth_method = "none";
  grant_types = [];
  response_types = [];
  client_name = "client";
  client_uri = "http://client";
}

-- A registered client is told a secret that it may use for an hour.
registered :
    (register (λ letters. "letters") "id" [] 100 registration).client_secret_expires_at ≡ 3700
unfolding register
registered = refl

endpoints_of : Option Oauth.Metadata → Option String
endpoints_of none = none
endpoints_of (some metadata) = some metadata.token_endpoint

-- The metadata name the server's own token endpoint.
own_endpoint :
    endpoints_of (oauth_authorization_server urls "http://me" made) ≡ some "http://me/token"
unfolding endpoints_of oauth_authorization_server
own_endpoint = refl
