-- ===== src/Server.antt =====
-- crates/overlay-mcp-svr: the HTTP handlers and extractors.
pub mod Message
pub mod Sse
pub mod Extract
pub mod Routes
pub mod Invariant
pub mod Oauth
pub mod Router
pub mod Layers
