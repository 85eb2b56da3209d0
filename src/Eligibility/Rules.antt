-- ===== src/Eligibility/Rules.antt =====
-- apps/api/src/scheduling/eligibility/rules.ts: `evaluateAssignment`, one function for each block
-- of pushes, in the source's order. A block returns the conflicts that it pushes.
mod Crew
mod Visit
mod Vehicles
pub mod Judgement
pub mod Separation
pub mod Blocks
pub mod Fitness
pub mod Conditions
pub mod Legality
pub mod Completeness
unfoldable pub use Crew.*
unfoldable pub use Visit.*
unfoldable pub use Vehicles.*
