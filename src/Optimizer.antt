-- ===== src/Optimizer.antt =====
-- apps/api/src/scheduling/optimizer: what guards the results of a solve.
pub mod LoadLedger
pub mod CandidateSlots
pub mod Moves
pub mod ExecutionBudget
pub mod PublishReadiness
pub mod RunRecovery
