-- ===== src/Service.antt =====
-- internal/server/service: the torrent service over the interfaces that it declares, and the
-- interfaces filled by the packages database and torrent as internal/server/server.go does.
pub mod Defs
pub mod Wiring
pub mod Methods
pub mod Frame
pub mod Pausing
pub mod Resuming
pub mod Removing
pub mod Restore
pub mod Restoring
pub mod Adding
pub mod Progress
pub mod Fairness
pub mod Invariant
pub mod Always
pub mod Program
pub mod Restored
pub mod Handover
pub mod Listing
