-- ===== src/Titan.antt =====
-- The torchtitan integration of src/pww/titan.
pub mod Shards
mod Tests
