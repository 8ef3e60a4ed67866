-- ===== src/Server/Layers/Reached.antt =====
-- What a request has in its extensions when it reaches the routes.
use overlay_mcp.Base.{◌≡◌, some}
use overlay_mcp.Server.Layers.{Part, Parts}

abbrev pub Returns : {Exts Value : Type 0} → Part Exts Value → Type 0
Returns {Exts} {Value} part = (v : Value) (x : Exts) → part.get (part.insert v x) ≡ some v

abbrev pub Leaves : {Exts V U : Type 0} → Part Exts V → Part Exts U → Type 0
Leaves {Exts} {V} part other = (v : V) (x : Exts) → other.get (part.insert v x) ≡ other.get x

-- `http::Extensions` gives back the last value of a type, and keeps the types apart.
pub record IsTypeMap {Exts Authn Authz Manager Resolver Client : Type 0}
    (parts : Parts Exts Authn Authz Manager Resolver Client) : Type 0 where
  pub authn : Returns parts.authn
  pub authz : Returns parts.authz
  pub manager : Returns parts.manager
  pub resolver : Returns parts.resolver
  pub client : Returns parts.client
  pub authn_authz : Leaves parts.authn parts.authz
  pub authz_manager : Leaves parts.authz parts.manager
  pub authn_manager : Leaves parts.authn parts.manager
  pub client_authn : Leaves parts.client parts.authn
  pub client_authz : Leaves parts.client parts.authz
  pub client_manager : Leaves parts.client parts.manager
  pub resolver_authn : Leaves parts.resolver parts.authn
  pub resolver_authz : Leaves parts.resolver parts.authz
  pub resolver_manager : Leaves parts.resolver parts.manager
  pub resolver_client : Leaves parts.resolver parts.client
