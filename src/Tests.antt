-- ===== src/Tests.antt =====
-- Concrete runs: for each theorem with hypotheses, an input at which they hold.
pub mod Office
pub mod Packages
mod Workbooks
mod Cells
mod Sheets
pub mod Presence
mod Batches
mod Accounts
mod Agent
mod Gateway
mod Api
mod App
mod Graph
