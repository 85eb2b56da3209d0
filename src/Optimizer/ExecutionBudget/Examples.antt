-- ===== src/Optimizer/ExecutionBudget/Examples.antt =====
-- The longest delivery that the platform allows, and the shortest that the program accepts.
use ultrakil_scheduling_syst.Prelude.{◌≡◌, refl, ◌≤◌, ◌↔◌, arith}
use ultrakil_scheduling_syst.Optimizer.ExecutionBudget.{
  qstash_max_execution_seconds, qstash_minimum_execution_seconds, qstash_maximum_range_days,
  seconds_for, qstash_maximum_range_days-fits,
}

test_budgets :
    (qstash_maximum_range_days qstash_max_execution_seconds ≡ 8)
    × (qstash_maximum_range_days qstash_minimum_execution_seconds ≡ 1)
unfolding qstash_maximum_range_days
test_budgets = (refl, refl)

qstash_maximum_range_days-fits_example :
    (8 ≤ qstash_maximum_range_days qstash_max_execution_seconds)
    ↔ (seconds_for 8 ≤ qstash_max_execution_seconds)
qstash_maximum_range_days-fits_example =
    qstash_maximum_range_days-fits qstash_max_execution_seconds 8 (omega arith)
