-- ===== src/Identity.antt =====
-- Identity: src/platform_backend/identity, and the workspaces of platform/repositories.
pub mod Slug
pub mod Rows
pub mod Workspaces
pub mod Service
