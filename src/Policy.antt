-- ===== src/Policy.antt =====
-- The policy engine and the policy catalog (src/platform_backend/policy).
pub mod Evaluator
pub mod Catalog
