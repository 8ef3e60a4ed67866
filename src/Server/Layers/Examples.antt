-- ===== src/Server/Layers/Examples.antt =====
-- The theorem about the layers over extensions that are a record, and a test.
use overlay_mcp.Base.{String, ℕ, suc, Bool, true, Option, none, some}
use overlay_mcp.Server.Layers.{Service, Request, Parts}

record Slots : Type 0 where
  authn : Option String
  authz : Option String
  manager : Option String
  resolver : Option String
  client : Option String

abbrev slots : Parts Slots String String String String String
slots = record {
  authn = record { insert = λ v x. record x { authn = some v }; get = λ x. x.authn };
  authz = record { insert = λ v x. record x { authz = some v }; get = λ x. x.authz };
  manager = record { insert = λ v x. record x { manager = some v }; get = λ x. x.manager };
  resolver = record { insert = λ v x. record x { resolver = some v }; get = λ x. x.resolver };
  client = record { insert = λ v x. record x { client = some v }; get = λ x. x.client };
}

-- A service that answers what it was called with, and counts its calls.
abbrev echo : Service ℕ Bool (Request Slots String) (Request Slots String)
echo = record { poll_ready = λ n. (true, n); call = λ req n. (req, suc n) }

abbrev bare : Request Slots String
bare = record {
  extensions = record {
    authn = none;
    authz = none;
    manager = none;
    resolver = none;
    client = none;
  };
  rest = "GET /sse";
}
