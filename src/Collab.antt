-- ===== src/Collab.antt =====
-- src/modules/collab: presence in Redis, the write batches of the gateway, and its handlers.
pub mod Presence
pub mod Batch
pub mod Cookies
pub mod Gateway
