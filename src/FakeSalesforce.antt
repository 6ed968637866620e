-- ===== src/FakeSalesforce.antt =====
-- The local stub of Salesforce (fake_salesforce/): the records it keeps and how a query reads them.
pub mod Soql
pub mod Store
pub mod Reads
pub mod Rows
pub mod Server
pub mod QueryTests
pub mod ServerTests
