-- ===== src/Auth.antt =====
-- The users' accounts: apps/api/src/modules/auth.
pub mod Otp
pub mod Live
pub mod Codes
pub mod Tokens
pub mod Service
pub mod Keeps
pub mod Families
pub mod Rotations
pub mod Orderly
pub mod Revoked
pub mod Reuse
