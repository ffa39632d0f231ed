-- ===== src/Api/Controllers.antt =====
-- The controllers of src/modules.
pub mod Accounts
pub mod Workbooks
pub mod Sheets
pub mod Cells
