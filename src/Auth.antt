-- ===== src/Auth.antt =====
-- crates/overlay-mcp-auth: who a request comes from, and what it may do.
pub mod Static
pub mod Authn
pub mod Fga
pub mod Dispatch
