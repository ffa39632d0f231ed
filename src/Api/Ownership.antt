-- ===== src/Api/Ownership.antt =====
-- Who can change a workbook, and who may do what with it.
pub mod Cascades
pub mod Rows
pub mod Grants
pub mod Routes
