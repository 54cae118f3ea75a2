-- ===== src/Tests.antt =====
-- Concrete runs: a small database, a toy torrent client, and each theorem that has hypotheses
-- applied to them.
pub mod Fixtures
pub mod DatabaseTests
pub mod EngineTests
pub mod ServerTests
pub mod PagesTests
pub mod ServiceTests
pub mod SystemTests
pub mod ConcurrencyTests
pub mod RoutesTests
