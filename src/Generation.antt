-- ===== src/Generation.antt =====
-- apps/api/src/scheduling/visit-generation: what a generation run would change, and what a
-- branch-day can carry.
pub mod Requirement
pub mod Plan
pub mod RunScope
pub mod ClippedPeriods
pub mod Anchors
pub mod DayFeasibility
pub mod TransportMatching
pub mod BranchDayCapacity
pub mod LoadGuard
