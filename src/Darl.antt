-- ===== src/Darl.antt =====
-- The data-range lease coordinator of src/pww/darl.
pub mod Interval
pub mod Space
pub mod Floats
pub mod Lease
pub mod Table
pub mod Blocks
pub mod Valid
pub mod Server
pub mod Client
mod Samples
mod Tests
