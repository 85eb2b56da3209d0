-- ===== src/Optimizer/ExecutionBudget.antt =====
-- apps/api/src/scheduling/optimizer/schedule-run-execution-budget.ts: the seconds of one delivery,
-- and the range of days that fits them. A budget is a number of whole seconds.
use ultrakil_scheduling_syst.Prelude.{
  ℕ, ◌+◌, ◌-◌, ◌*◌, ◌/◌, ◌≤◌, ◌≡◌, ◌↔◌, arith, max, leb, if◌then◌else◌,
}
mod Examples

abbrev pub vercel_function_compatibility_cap_seconds : ℕ
vercel_function_compatibility_cap_seconds = 60

abbrev pub qstash_response_reserve_seconds : ℕ
qstash_response_reserve_seconds = 5

abbrev pub qstash_max_execution_seconds : ℕ
qstash_max_execution_seconds =
    vercel_function_compatibility_cap_seconds - qstash_response_reserve_seconds

abbrev pub schedule_execution_preparation_reserve_seconds : ℕ
schedule_execution_preparation_reserve_seconds = 5

abbrev pub schedule_solver_transport_reserve_seconds : ℕ
schedule_solver_transport_reserve_seconds = 10

abbrev pub schedule_execution_persistence_reserve_seconds : ℕ
schedule_execution_persistence_reserve_seconds = 30

abbrev pub schedule_execution_lease_safety_seconds : ℕ
schedule_execution_lease_safety_seconds = 1

abbrev pub schedule_minimum_solver_seconds_per_day : ℕ
schedule_minimum_solver_seconds_per_day = 1

abbrev pub qstash_minimum_execution_seconds : ℕ
qstash_minimum_execution_seconds =
    schedule_execution_preparation_reserve_seconds + schedule_solver_transport_reserve_seconds
    + schedule_execution_persistence_reserve_seconds + schedule_execution_lease_safety_seconds
    + schedule_minimum_solver_seconds_per_day

-- Subtraction stops at 0, which is the `Math.max(0, …)` of the source.
abbrev pub available_solver_phases : ℕ → ℕ
available_solver_phases execution_budget_seconds =
    (execution_budget_seconds - schedule_execution_preparation_reserve_seconds
      - schedule_solver_transport_reserve_seconds - schedule_execution_persistence_reserve_seconds
      - schedule_execution_lease_safety_seconds)
    / schedule_minimum_solver_seconds_per_day

unfoldable pub qstash_maximum_range_days : ℕ → ℕ
qstash_maximum_range_days execution_budget_seconds =
    let phases : ℕ = available_solver_phases execution_budget_seconds in
    if leb phases 1 then phases else phases - 1

-- The phases of a range: one model for one day, and for more days one for each and one before
-- them, in which the protected visits are allocated together.
abbrev pub phases_of : ℕ → ℕ
phases_of days = if leb days 1 then days else days + 1

-- The seconds that a range needs: the four reserves, and the least solver time for each phase.
abbrev pub seconds_for : ℕ → ℕ
seconds_for days =
    schedule_execution_preparation_reserve_seconds
    + schedule_solver_transport_reserve_seconds
    + schedule_execution_persistence_reserve_seconds
    + schedule_execution_lease_safety_seconds
    + phases_of days * schedule_minimum_solver_seconds_per_day

-- A range of one or more days is within the advertised maximum of a budget exactly when its
-- reserves and its phases fit the budget, the phase for protected visits included.
pub qstash_maximum_range_days-fits :
    (budget days : ℕ)
    → 1 ≤ days
    → (days ≤ qstash_maximum_range_days budget) ↔ (seconds_for days ≤ budget)
unfolding qstash_maximum_range_days
qstash_maximum_range_days-fits budget days h = (λ k. ground arith, λ k. ground arith)
