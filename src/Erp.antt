-- ===== src/Erp.antt =====
-- The mock ERP (erp/): its tables and the idempotent, version-checked write.
pub mod Schema
pub mod Writer
pub mod Effect
pub mod Versions
pub mod Reading
pub mod Refinement
pub mod Sync
pub mod History
pub mod Newest
pub mod Convergence
pub mod Tests
