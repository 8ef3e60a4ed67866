-- ===== src/Http.antt =====
-- crates/httpbuilder: references to a header or a query parameter of a request.
pub mod Request
pub mod Reference
pub mod Builder
