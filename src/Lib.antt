-- ===== src/Lib.antt =====
-- The scheduling core of the UltraKIL API (apps/api/src/scheduling), as definitions and theorems.
--
-- Service agreements ask for visits. Generation compares the visits required with the calendar and
-- plans additions, updates and removals; a solver proposes crews, vehicles and moved days; the
-- eligibility engine judges each proposal; the run's transaction commits what the engine accepts,
-- under a daily cap on crew-minutes; a manager publishes the result through two gates; and a
-- recovery path settles runs whose delivery failed.
--
-- - Prelude: Boolean tests, lists, stable sorting, maps and sets by insertion order, decimal texts,
--   signed integers, shared by all other modules.
-- - Domain: the enumerations of apps/api/prisma/schema.prisma, and dates as day numbers.
-- - Catalog: catalog/schedule-preview.ts. Periods has `period_index_of` and `period_bounds_of`, where
--   a `Date` is the number of its day, and Windows has the opening hours. In Preview,
--   `compute_schedule_preview` is `computeSchedulePreview`: Scan is its loop over the days, whose
--   local variables are the record `Scan`, Choice has `chooseForPeriod`, Texts the messages, Turns
--   one turn of the loop over the periods, which returns what it pushes, a `PeriodPlan`, and Compute
--   the loop.
--   `stretched` is the object of a period's bounds, which the loop writes to in place.
-- - Config: the figures of apps/api/src/config/constants.ts that the rules read.
-- - Generation: visit-generation/plan.ts. `plan_generation` is `planGeneration`; the loop over the
--   requirements is `compare_required` with one step in `compare_step`, the loop over the calendar
--   is `sweep_existing`; the local variables of the function are the record `Progress`.
--   DayFeasibility is day-feasibility.ts down to the transport checks, TransportMatching is
--   transport-matching.ts, BranchDayCapacity is branch-day-capacity.ts and capacity.ts,
--   Anchors is anchors.ts, RunScope is run-scope.ts, ClippedPeriods is clipped-periods.ts.
--   LoadGuard is load-guard.ts: Spread and Feasible have its two passes, whose steps are the
--   relation `Step`; a reference to a visit is the number of the visit in the list.
-- - Eligibility: eligibility/rules.ts, conflict-codes.ts and conflict-groups.ts.
--   `evaluate_assignment` is `evaluateAssignment`; each block of `conflicts.push` is one function
--   (`visit_rules`, `time_rules`, `employee_rules`, `vehicle_rules`, …) that returns what it pushes.
-- - Optimizer: optimizer/daily-load-ledger.ts (LoadLedger), the loop of schedule-run.service.ts that
--   commits proposals (Moves), publish-readiness.ts (PublishReadiness), schedule-run-recovery.ts
--   (RunRecovery), schedule-run-execution-budget.ts (ExecutionBudget) and candidate-slots.ts
--   (CandidateSlots), on the calendar and the windows of Catalog. Tables are maps by id,
--   `updateMany` on a unique id is `update_many`, and the clock is an argument.
--
-- Numbers are natural numbers, except minutes of bookings, since a booking of the day before starts
-- at a negative minute, the numbers of periods, and days that are computed from a date: these are
-- integers. A date text `YYYY-MM-DD` is the number of its day; a composite key `a|b` is a pair.
-- Recursion is on lists, or on the rounds that a loop has left, but for two functions on fuel:
-- `show` prints a decimal number with one unit more than the number, which has no more digits than
-- that, and `augment_from` has a unit for each person on a list and one more, since each nested
-- search sees a new person.
--
-- Not modelled: the database, the queue, HTTP, the manager's web client and the solver service.
-- Of visit-generation, transport-allocation.ts (a minimum-cost flow) and with it the transport checks
-- of a day's feasibility, protected-periods.ts and the words of cadence.ts; of repair, the planner.
-- The engine's verdict inside a run reads rows of the transaction, so Moves takes it as a parameter,
-- with no hypothesis on it.
pub mod Prelude
pub mod Domain
pub mod Catalog
pub mod Config
pub mod Eligibility
pub mod Generation
pub mod Optimizer
