-- ===== src/Plan.antt =====
-- The campaign planner of src/pww/plan.
pub mod Budget
pub mod Jobs
pub mod Steps
mod Tests
