-- ===== src/Util.antt =====
-- The helpers of src/iot_util.c.
pub mod Backoff
pub mod Queue
pub mod Hex
pub mod Uuid
pub mod Mac
pub mod Channel
pub mod Url
mod Tests
