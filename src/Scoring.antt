-- ===== src/Scoring.antt =====
-- The scoring of predictions.
pub mod Markets
pub mod Service
pub mod Keeps
pub mod Groups
pub mod Grouping
