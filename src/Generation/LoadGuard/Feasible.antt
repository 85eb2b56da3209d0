-- ===== src/Generation/LoadGuard/Feasible.antt =====
-- load-guard.ts: the pass that asks of each day whether its work can be performed at all. The
-- check is an argument, as in the source.
use ultrakil_scheduling_syst.Prelude.{
  ℕ, zero, suc, Bool, Option, none, some, List, [], ◌∷◌, ◌++◌, map, filter, String, is_some, insert,
  nat_eq, string_eq, pair_eq, ◌==◌, ltb, not, if◌then◌else◌, length,
}
use ultrakil_scheduling_syst.Prelude.Sort.{sort_by}
use ultrakil_scheduling_syst.Prelude.Text.{str_ltb}
use ultrakil_scheduling_syst.Domain.{DateOnly, BranchCode, branch_eq}
use ultrakil_scheduling_syst.Generation.Requirement.{RequiredVisit, PreviewAlternative}
use ultrakil_scheduling_syst.Generation.DayFeasibility.{DayVisitDemand, DayInfeasibility}
use ultrakil_scheduling_syst.Generation.LoadGuard.{
  DayKey, CapacityByDay, StandingVisit, standing_key, Slot,
}
use ultrakil_scheduling_syst.Generation.LoadGuard.Spread.{
  Guard, is_on, can_move, target_of, move_slot,
}

abbrev pub to_demand : RequiredVisit → DayVisitDemand
to_demand visit = record {
  service_agreement_id = visit.service_agreement_id;
  window_start_minute = visit.window_start_minute;
  window_end_minute = visit.window_end_minute;
  duration_minutes = visit.duration_minutes;
  required_crew_size = visit.required_crew_size;
  required_skill_codes = visit.required_skill_codes;
}

abbrev pub standing_demand : StandingVisit → DayVisitDemand
standing_demand visit = record {
  service_agreement_id = visit.service_agreement_id;
  window_start_minute = visit.window_start_minute;
  window_end_minute = visit.window_end_minute;
  duration_minutes = visit.duration_minutes;
  required_crew_size = visit.required_crew_size;
  required_skill_codes = visit.required_skill_codes;
}

abbrev pub FeasibilityCheck : Type 0
FeasibilityCheck = BranchCode → DateOnly → List DayVisitDemand → Option DayInfeasibility

pub record Resolved : Type 0 where
  pub guard : Guard
  pub infeasible : List (DayKey × DayInfeasibility)

unfoldable pub picked_before : Slot → Slot → Bool
picked_before a b =
    if a.visit.service_agreement_id == b.visit.service_agreement_id
    then ltb a.visit.window_start_minute b.visit.window_start_minute
    else str_ltb a.visit.service_agreement_id b.visit.service_agreement_id

abbrev pub first_slot : List Slot → Option Slot
first_slot [] = none
first_slot (slot ∷ slots) = some slot

module _ (capacity : CapacityByDay) (standing_by_agreement : List (String × List DateOnly))
    (standing : List StandingVisit) (is_feasible : FeasibilityCheck) where
  unfoldable pub demands_on : DayKey → List Slot → List DayVisitDemand
  demands_on key slots =
      map (λ slot. to_demand slot.visit) (filter (is_on key) slots)
      ++ map standing_demand (filter (λ visit. standing_key visit == key) standing)

  -- An impossible visit is not moved onto another impossible day.
  unfoldable pub suits : RequiredVisit → Guard → PreviewAlternative → Bool
  unfolding demands_on
  suits visit guard alternative =
      let to : DayKey = (visit.branch_code, alternative.date) in
      not (
        is_some (
          is_feasible visit.branch_code alternative.date
            (demands_on to guard.slots ++ to_demand visit ∷ [])))

  abbrev pub mover_of : DayKey → Guard → Option Slot
  mover_of key guard = first_slot (sort_by picked_before (filter (can_move key) guard.slots))

  unfoldable pub try_resolve : Option Slot → Guard → Option Guard
  unfolding target_of move_slot suits
  try_resolve none guard = none
  try_resolve (some slot) guard =
      elim (target_of capacity standing_by_agreement (suits slot.visit guard) slot.visit guard) [
        | none ↦ none
        | some target ↦ some (move_slot slot target guard)
      ]

  -- The rounds of one day; a round that moves nothing is the last.
  unfoldable pub resolve_day : DayKey → ℕ → Resolved → Resolved
  unfolding try_resolve can_move picked_before demands_on
  resolve_day key zero state = state
  resolve_day key (suc left) state =
      elim (is_feasible (key.0) (key.1) (demands_on key state.guard.slots)) [
        | none ↦ record state {
          infeasible = filter (λ entry. not (entry.0 == key)) state.infeasible;
        }
        | some verdict ↦ elim (try_resolve (mover_of key state.guard) state.guard) [
          | none ↦ record state { infeasible = insert key verdict state.infeasible }
          | some moved ↦
              resolve_day key left
                (record { guard = moved; infeasible = insert key verdict state.infeasible })
        ]
      ]

  -- The rounds are as many as the source's loop allows: one more than the visits.
  unfoldable pub resolve : List DayKey → Resolved → Resolved
  unfolding resolve_day
  resolve [] state = state
  resolve (key ∷ keys_) state =
      resolve keys_ (resolve_day key (suc (length state.guard.slots)) state)
