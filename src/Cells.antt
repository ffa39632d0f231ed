-- ===== src/Cells.antt =====
-- src/modules/cells/cells.service.ts: the operations, and what they guarantee.
pub mod Service
pub mod Bulk
pub mod Versions
pub mod Clearing
pub mod Guarding
pub mod Elsewhere
pub mod Contents
pub mod Racing
