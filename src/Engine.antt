-- ===== src/Engine.antt =====
-- internal/server/torrent: the engine over a torrent client. The client is the interfaces
-- `Client` and `Torrent` of client.go, which the program fills with a library; the model takes
-- them as a record of functions over the state of the server.
pub mod Path
pub mod Defs
pub mod Adapter
pub mod Removal
pub mod Adding
