-- ===== src/Scans.antt =====
-- The life of a scan: src/platform_backend/platform, assets/ingest and policy/worker.py.
pub mod Status
pub mod AuthErrors
pub mod Rows
pub mod Store
pub mod Inventory
pub mod Runs
pub mod Insights
pub mod Resources
pub mod Exec
pub mod Service
pub mod Integrations
pub mod Ingest
pub mod Evaluate
pub mod System
mod Tests
