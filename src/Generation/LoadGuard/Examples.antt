-- ===== src/Generation/LoadGuard/Examples.antt =====
-- A Monday with a booked visit of 30 crew-minutes, one of 30 that may go to Tuesday and one of 40
-- that has no other day, in a branch that plans 60 crew-minutes a day.
use ultrakil_scheduling_syst.Prelude.{
  ℕ, ◌+◌, ◌≤◌, ◌≡◌, ◌⊎◌, refl, none, some, List, [], ◌∷◌, map, String, All, sum_of, arith, true,
  false, lookup, insert, has, add,
}
use ultrakil_scheduling_syst.Prelude.Int.{pos}
use ultrakil_scheduling_syst.Prelude.Sort.{sort_by, insert_sorted}
use ultrakil_scheduling_syst.Domain.{
  DateOnly, colombo, VisitPlacement, booked, earliest, spread, tuesday, derived,
  BranchCode-discrete, VisitPlacement-discrete,
}
use ultrakil_scheduling_syst.Generation.Requirement.{RequiredVisit, PreviewAlternative}
use ultrakil_scheduling_syst.Generation.LoadGuard.{
  everywhere, StandingVisit, day_key, bump, reduce, count_visit, count_visits, count_standing,
  count_all_standing, slots_from, overloaded,
}
use ultrakil_scheduling_syst.Generation.LoadGuard.Spread.{
  slot_at, can_move, can_shed, moves_before, sheds_before, moved_to, put, take_off, move_slot, shed,
  has_room, target_of, try_move, move_off, try_shed, shed_off, relieve_day, relieve,
}
use ultrakil_scheduling_syst.Generation.LoadGuard.Feasible.{
  FeasibilityCheck, resolve, resolve_day, demands_on,
}
use ultrakil_scheduling_syst.Generation.LoadGuard.Warnings.{warnings_over}
use ultrakil_scheduling_syst.Generation.LoadGuard.Whole.{
  LoadGuardResult, counted, spread_over_days, resolved, apply_daily_load_guard,
}
use ultrakil_scheduling_syst.Generation.LoadGuard.Exact.{minutes_at}
use ultrakil_scheduling_syst.Generation.LoadGuard.Counted.{standing_on}
use ultrakil_scheduling_syst.Generation.LoadGuard.Outcome.{IsKept, apply_daily_load_guard-IsKept}
use ultrakil_scheduling_syst.Generation.LoadGuard.Caps.{WasInCalendar, apply_daily_load_guard-cap}

abbrev on_tuesday : PreviewAlternative
on_tuesday = record {
  date = 740067;
  weekday = tuesday;
  window_start_minute = 540;
  window_end_minute = 1020;
  is_preferred_day = false;
  window_provenance = derived;
}

abbrev asked : String → ℕ → VisitPlacement → List PreviewAlternative → RequiredVisit
asked id minutes placement alternatives = record {
  service_agreement_id = id;
  visit_date = 740066;
  window_start_minute = 480;
  window_end_minute = 1020;
  duration_minutes = minutes;
  required_crew_size = 1;
  required_skill_codes = [];
  branch_code = colombo;
  agreement_version_id = none;
  window_provenance = some derived;
  is_preferred_day = true;
  placement = placement;
  period_index = pos 0;
  alternatives = alternatives;
  pinned_from = none;
}

abbrev required : List RequiredVisit
required =
    asked "a" 30 booked [] ∷ asked "b" 30 earliest (on_tuesday ∷ []) ∷ asked "c" 40 earliest [] ∷ []

abbrev standing : List StandingVisit
standing =
    record {
      service_agreement_id = "d";
      branch_code = colombo;
      visit_date = 740067;
      window_start_minute = 480;
      window_end_minute = 1020;
      duration_minutes = 20;
      required_crew_size = 1;
      required_skill_codes = [];
    }
    ∷ []

abbrev always : FeasibilityCheck
always branch date visits = none

record IsExpected (result : LoadGuardResult) : Type 0 where
  planned :
      map {B = DateOnly × VisitPlacement}
        (λ visit. (visit.visit_date, visit.placement))
        result.required
      ≡ (740066, booked) ∷ (740067, spread) ∷ []
  left : map (λ entry. entry.visit.service_agreement_id) result.unplaceable ≡ "c" ∷ []
  warned : result.warnings ≡ []

test_guard : IsExpected (apply_daily_load_guard required (everywhere 60) standing (some always) [])
unfolding apply_daily_load_guard resolved spread_over_days counted warnings_over resolve resolve_day
    demands_on relieve relieve_day shed_off try_shed move_off try_move target_of has_room shed
    move_slot take_off put moved_to sheds_before moves_before can_shed can_move slot_at overloaded
    slots_from count_all_standing count_standing count_visits count_visit reduce bump lookup insert
    has add sort_by insert_sorted BranchCode-discrete VisitPlacement-discrete
test_guard = record { planned = refl; left = refl; warned = refl }

apply_daily_load_guard-cap_example :
    (sum_of
          (minutes_at (colombo, 740066))
          (apply_daily_load_guard required (everywhere 60) standing (some always) []).required
        + standing_on required (everywhere 60) standing [] (colombo, 740066)
      ≤ 60)
    ⊎ All
        (λ visit.
          day_key visit ≡ (colombo, 740066)
          → (visit.placement ≡ booked)
            ⊎ WasInCalendar required (everywhere 60) standing (some always) [] visit)
        (apply_daily_load_guard required (everywhere 60) standing (some always) []).required
apply_daily_load_guard-cap_example =
    apply_daily_load_guard-cap required (everywhere 60) standing (some always) [] (colombo, 740066)
      (omega arith)

apply_daily_load_guard-IsKept_example :
    IsKept required
      (everywhere 60)
      standing
      (some always)
      []
      (apply_daily_load_guard required (everywhere 60) standing (some always) [])
apply_daily_load_guard-IsKept_example =
    apply_daily_load_guard-IsKept required (everywhere 60) standing (some always) []
