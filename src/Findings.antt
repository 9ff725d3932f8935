-- ===== src/Findings.antt =====
-- The findings of a scan (src/platform_backend/findings).
pub mod Repository
pub mod Risk
pub mod Presentation
pub mod Customer
pub mod Priorities
pub mod Resources
pub mod Queries
