-- ===== src/Sheets.antt =====
-- src/modules/sheets/sheets.service.ts: the operations, and what they guarantee.
pub mod Service
pub mod Indices
pub mod Snapshots
