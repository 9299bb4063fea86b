-- ===== src/Import.antt =====
-- apps/api/src/imports/imports.service.ts: statements that are read into the ledger.
pub mod Csv
pub mod Amount
pub mod Rows
pub mod Job
pub mod Run
