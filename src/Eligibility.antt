-- ===== src/Eligibility.antt =====
-- apps/api/src/scheduling/eligibility: the hard rules of an assignment, and their conflicts.
pub mod Conflicts
pub mod Facts
pub mod Messages
pub mod Groups
pub mod Rules
pub mod Examples
