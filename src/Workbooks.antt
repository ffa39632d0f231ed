-- ===== src/Workbooks.antt =====
-- src/modules/workbooks/workbooks.service.ts: the checks, the operations, and what they guarantee.
pub mod Access
pub mod Service
pub mod Roles
pub mod Sharing
