-- ===== src/Sports.antt =====
-- The provider of sports data: apps/api/src/modules/sports.
pub mod Port
pub mod FootballData
pub mod Mapping
pub mod Sync
pub mod Poller
pub mod Resync
pub mod Keeps
