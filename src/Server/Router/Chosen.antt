-- ===== src/Server/Router/Chosen.antt =====
-- Which authorizer `Authz::new` of crates/overlay-mcp-auth/src/lib.rs makes of a configuration.
use overlay_mcp.Base.{◌≡◌, refl, subst, none, some, [], Result, ok, err, map_err, >>=-eq-ok}
use overlay_mcp.Core.Errors.{Error, openfga_error}
use overlay_mcp.Core.Config.{
  AuthConfig, open_fga as by_open_fga, static as by_static, AuthenticaterConfig,
  AuthorizerConstantConfig, WhitelistAndBlacklist,
}
use overlay_mcp.Openfga.{Server, build, connect, display}
use overlay_mcp.Auth.Dispatch
use overlay_mcp.Auth.Dispatch.{Authz, new_fga, with_headers}
use overlay_mcp.Auth.Static

-- The authorizer is of the kind that the configuration names. That of OpenFGA has the configured checks and the
-- client that its url, store and headers connect; the static one has the configured lists, empty where there
-- are none.
abbrev pub Chosen : {Jwk : Type 0} → Server → AuthConfig Jwk → Authz → Type 0
Chosen server (by_open_fga _ config) (Authz.open_fga openfga authz) =
    (connect server (with_headers server (build config.url config.store) config.headers)
      ≡ ok openfga)
    × (authz.check ≡ config.check)
    × (authz.apikey ≡ config.apikey)
    × (authz.jwt ≡ config.jwt)
Chosen server (by_static _ config) (Authz.static authz) =
    (config.apikey ≡ none → (authz.apikey.whitelist ≡ []) × (authz.apikey.blacklist ≡ []))
    × ((lists : WhitelistAndBlacklist) → config.apikey ≡ some lists → authz.apikey ≡ lists)
    × (authz.jwt ≡ config.jwt)
Chosen _ _ _ = ⊥

map_err-ok : {A E F : Type 0} (f : E → F) (r : Result A E) (a : A) → map_err f r ≡ ok a → r ≡ ok a
map_err-ok f (ok b) a h = cc
map_err-ok f (err e) a h = absurd (cc)

pub of_ok : {A : Type 0} (a b : A) → Path (Result A Error) (ok a) (ok b) → a ≡ b
of_ok a b h = cc

static-Chosen :
    {Jwk : Type 0} (server : Server) (a : AuthenticaterConfig Jwk)
    (config : AuthorizerConstantConfig) (authz : Authz)
    → Dispatch.new server (by_static a config) ≡ ok authz
    → Chosen server (by_static a config) authz
unfolding Dispatch.new Static.new
static-Chosen server a config authz h =
    subst (Chosen server (by_static a config)) (of_ok _ authz h)
      (λ e. simp e (refl, refl), λ lists e. simp e refl, refl)

pub new-Chosen :
    {Jwk : Type 0} (server : Server) (config : AuthConfig Jwk) (authz : Authz)
    → Dispatch.new server config ≡ ok authz
    → Chosen server config authz
unfolding Dispatch.new new_fga
new-Chosen server (by_open_fga a openfga) authz h =
    let connected =
      connect server (with_headers server (build openfga.url openfga.store) openfga.headers) in
    let (got, p, e) = >>=-eq-ok (map_err (λ e. openfga_error (display e)) connected) _ h in
    subst (Chosen server (by_open_fga a openfga)) (of_ok _ authz e)
      (map_err-ok (λ e. openfga_error (display e)) connected got p, refl, refl, refl)
new-Chosen server (by_static a constant) authz h = static-Chosen server a constant authz h
