-- ===== src/Server/Layers.antt =====
-- crates/overlay-mcp-svr/src/middlewares: the layers of auth.rs, session.rs, resolver.rs and reqwest.rs, and how
-- router/mod.rs stacks them. tower's `Service` is a record of its two operations, and `http::Extensions` a
-- map by type, of which each layer uses its part.
pub mod Reached
pub mod Examples
use overlay_mcp.Base.{Option}

pub record Service (W Poll Req Res : Type 0) : Type 0 where
  pub poll_ready : W → Poll × W
  pub call : Req → W → Res × W

-- What `http::Extensions` does with the values of one type.
pub record Part (Exts Value : Type 0) : Type 0 where
  pub insert : Value → Exts → Exts
  pub get : Exts → Option Value

-- A request, with all but its extensions in `rest`.
pub record Request (Exts Rest : Type 0) : Type 0 where
  pub extensions : Exts
  pub rest : Rest

abbrev pub inserted :
    {Exts Rest Value : Type 0} → Part Exts Value → Value → Request Exts Rest → Request Exts Rest
inserted part value req = record req { extensions = part.insert value req.extensions }

pub record AuthLayer (Authn Authz : Type 0) : Type 0 where
  pub authz : Authz
  pub authn : Authn

pub record AuthMiddleware (S Authn Authz : Type 0) : Type 0 where
  pub inner : S
  pub authz : Authz
  pub authn : Authn

pub record ResolverLayer (Resolver : Type 0) : Type 0 where
  pub resolver : Resolver

pub record ResolverMiddleware (S Resolver : Type 0) : Type 0 where
  pub inner : S
  pub resolver : Resolver

pub record ReqwestLayer (Client : Type 0) : Type 0 where
  pub client : Client

pub record ReqwestMiddleware (S Client : Type 0) : Type 0 where
  pub inner : S
  pub client : Client

pub record SessionManagerLayer (Manager : Type 0) : Type 0 where
  pub session_manager : Manager

pub record SessionManagerMiddleware (S Manager : Type 0) : Type 0 where
  pub inner : S
  pub session_manager : Manager

module _ {S Authn Authz : Type 0} where
  unfoldable pub layer_auth : AuthLayer Authn Authz → S → AuthMiddleware S Authn Authz
  layer_auth self inner = record { inner = inner; authz = self.authz; authn = self.authn }

module _ {S Resolver : Type 0} where
  unfoldable pub layer_resolver : ResolverLayer Resolver → S → ResolverMiddleware S Resolver
  layer_resolver self inner = record { inner = inner; resolver = self.resolver }

module _ {S Client : Type 0} where
  unfoldable pub layer_reqwest : ReqwestLayer Client → S → ReqwestMiddleware S Client
  layer_reqwest self inner = record { inner = inner; client = self.client }

module _ {S Manager : Type 0} where
  unfoldable pub layer_session_manager :
      SessionManagerLayer Manager → S → SessionManagerMiddleware S Manager
  layer_session_manager self inner = record {
    inner = inner;
    session_manager = self.session_manager;
  }

module _ {W Poll Exts Rest Res : Type 0} where
  -- `Service for AuthMiddleware`
  unfoldable pub auth_service :
      {Authn Authz : Type 0} (authz : Part Exts Authz) (authn : Part Exts Authn)
      → AuthMiddleware (Service W Poll (Request Exts Rest) Res) Authn Authz
      → Service W Poll (Request Exts Rest) Res
  auth_service authz authn self = record {
    poll_ready = self.inner.poll_ready;
    call = λ req. self.inner.call (inserted authn self.authn (inserted authz self.authz req));
  }

  -- `Service for SessionManagerMiddleware`
  unfoldable pub session_manager_service :
      {Manager : Type 0} (manager : Part Exts Manager)
      → SessionManagerMiddleware (Service W Poll (Request Exts Rest) Res) Manager
      → Service W Poll (Request Exts Rest) Res
  session_manager_service manager self = record {
    poll_ready = self.inner.poll_ready;
    call = λ req. self.inner.call (inserted manager self.session_manager req);
  }

  -- `Service for ResolverMiddleware`
  unfoldable pub resolver_service :
      {Resolver : Type 0} (resolver : Part Exts Resolver)
      → ResolverMiddleware (Service W Poll (Request Exts Rest) Res) Resolver
      → Service W Poll (Request Exts Rest) Res
  resolver_service resolver self = record {
    poll_ready = self.inner.poll_ready;
    call = λ req. self.inner.call (inserted resolver self.resolver req);
  }

  -- `Service for ReqwestMiddleware`
  unfoldable pub reqwest_service :
      {Client : Type 0} (client : Part Exts Client)
      → ReqwestMiddleware (Service W Poll (Request Exts Rest) Res) Client
      → Service W Poll (Request Exts Rest) Res
  reqwest_service client self = record {
    poll_ready = self.inner.poll_ready;
    call = λ req. self.inner.call (inserted client self.client req);
  }

-- The parts of the extensions that the layers use; a value of one type leaves those of the others.
pub record Parts (Exts Authn Authz Manager Resolver Client : Type 0) : Type 0 where
  pub authn : Part Exts Authn
  pub authz : Part Exts Authz
  pub manager : Part Exts Manager
  pub resolver : Part Exts Resolver
  pub client : Part Exts Client

module _ {W Poll Exts Rest Res Authn Authz Manager Resolver Client : Type 0}
    (parts : Parts Exts Authn Authz Manager Resolver Client) (resolver : Resolver) (client : Client)
    (authz : Authz) (authn : Authn) (manager : Manager) where
  -- The layers of `router`, from the innermost to the outermost.
  unfoldable pub layers :
      Service W Poll (Request Exts Rest) Res → Service W Poll (Request Exts Rest) Res
  unfolding layer_auth layer_resolver layer_reqwest layer_session_manager auth_service
      session_manager_service resolver_service reqwest_service
  layers inner =
      let with_resolver =
        resolver_service parts.resolver (layer_resolver (record { resolver = resolver }) inner) in
      let with_client =
        reqwest_service parts.client (layer_reqwest (record { client = client }) with_resolver) in
      let with_auth =
        auth_service parts.authz parts.authn
          (layer_auth (record { authz = authz; authn = authn }) with_client) in
      session_manager_service parts.manager
        (layer_session_manager (record { session_manager = manager }) with_auth)
