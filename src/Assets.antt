-- ===== src/Assets.antt =====
-- src/platform_backend/assets/ingest/normalizer.py: the rows that a collected file becomes.
pub mod Values
pub mod Rules
pub mod Normalizer
