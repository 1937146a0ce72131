-- ===== src/Settlement.antt =====
-- The settlement of a scored contest.
pub mod Ranking
pub mod Prizes
pub mod Distribution
pub mod Keeps
pub mod Commission
pub mod Empties
