-- ===== src/Api.antt =====
-- The middleware of the API: src/platform_backend/api/middleware.
pub mod RateLimit
