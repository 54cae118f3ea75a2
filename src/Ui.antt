-- ===== src/Ui.antt =====
-- internal/server/ui: the handlers of the web interface.
pub mod Defs
pub mod Pages
pub mod Wiring
pub mod Sizes
pub mod Labels
pub mod Complete
pub mod Toggling
