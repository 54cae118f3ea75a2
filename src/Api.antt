-- ===== src/Api.antt =====
-- internal/server/api: the HTTP handlers.
pub mod Defs
pub mod Status
pub mod Deletion
pub mod Middleware
pub mod Panics
