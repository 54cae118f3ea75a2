-- ===== src/Remote.antt =====
-- pkg/client: the client of the HTTP API.
pub mod Defs
pub mod Server
pub mod Carries
pub mod Uploads
