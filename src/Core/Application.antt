-- ===== src/Core/Application.antt =====
-- crates/overlay-mcp-core/src/config: mod.rs, application.rs, server.rs and otel.rs. An address and the kinds of
-- axum_client_ip and of tracing are their text, and `BaseModifiers` has no fields.
use overlay_mcp.Base.{String, Bool, Option}
use overlay_mcp.Core.Errors.{Url}
use overlay_mcp.Core.Config.{UpstreamConfig, AuthConfig}
use overlay_mcp.Core.Cluster.{ClusterConfig}

pub record BaseModifiers : Type 0 where

pub record ApplicationConfig : Type 0 where
  pub log_filter : Option String
  pub ip_extract : Option String
  pub prometheus : Bool
  pub health_check : Bool
  pub passthrough : BaseModifiers

pub record ServerConfig (RaftConfig : Type 0) : Type 0 where
  pub addr : String
  pub hostname : Url
  pub cluster : ClusterConfig RaftConfig

pub record OpenTelemetryConfig : Type 0 where
  pub endpoint : String

pub record Config (Jwk RaftConfig : Type 0) : Type 0 where
  pub application : ApplicationConfig
  pub server : ServerConfig RaftConfig
  pub upstream : UpstreamConfig
  pub auth : AuthConfig Jwk
  pub otel : Option OpenTelemetryConfig
