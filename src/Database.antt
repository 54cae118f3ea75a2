-- ===== src/Database.antt =====
-- internal/server/database: the SQLite tables that the migrations create, the two repositories
-- over them, and the in-memory cache of piece completion.
pub mod Defs
pub mod Torrents
pub mod Pieces
pub mod Schema
