-- ===== src/Central.antt =====
-- The central aggregation plane of src/pww/central.
pub mod Members
pub mod Round
pub mod Driver
pub mod Global
pub mod Names
pub mod Blobs
pub mod Strategy
pub mod Pace
pub mod Tests
