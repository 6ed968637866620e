-- ===== src/Reconciler.antt =====
-- The nightly reconciler (reconciler/): Salesforce against the ERP, and the repair of what differs.
pub mod Events
pub mod Reconcile
pub mod Salesforce
pub mod Scan
pub mod App
pub mod Tests
pub mod PagesTests
