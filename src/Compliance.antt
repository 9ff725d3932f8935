-- ===== src/Compliance.antt =====
-- The compliance frameworks and the mapping of findings to controls (src/platform_backend/compliance).
pub mod Mapper
pub mod Store
pub mod Report
