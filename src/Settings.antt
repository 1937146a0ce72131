-- ===== src/Settings.antt =====
-- apps/api/src/modules/admin/settings-admin.controller.ts: rules and weights as versioned data.
pub mod Versions
pub mod Admin
pub mod Rules
pub mod Active
pub mod Keeps
