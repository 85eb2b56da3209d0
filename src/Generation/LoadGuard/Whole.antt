-- ===== src/Generation/LoadGuard/Whole.antt =====
-- load-guard.ts: `applyDailyLoadGuard`, from the counting of the days to the warnings.
use ultrakil_scheduling_syst.Prelude.{Option, none, some, List, [], map, String}
use ultrakil_scheduling_syst.Prelude.Sort.{sort_by}
use ultrakil_scheduling_syst.Domain.{DateOnly}
use ultrakil_scheduling_syst.Generation.Requirement.{RequiredVisit}
use ultrakil_scheduling_syst.Generation.LoadGuard.{
  CapacityByDay, StandingVisit, UnplaceableVisit, Board, empty_board, count_visits,
  count_all_standing, slots_from, overloaded, branch_first,
}
use ultrakil_scheduling_syst.Generation.LoadGuard.Spread.{Guard, relieve}
use ultrakil_scheduling_syst.Generation.LoadGuard.Feasible.{FeasibilityCheck, Resolved, resolve}
use ultrakil_scheduling_syst.Generation.LoadGuard.Warnings.{DailyLoadWarning, warnings_over}

pub record LoadGuardResult : Type 0 where
  pub required : List RequiredVisit
  pub warnings : List DailyLoadWarning
  pub unplaceable : List UnplaceableVisit

module _ (required : List RequiredVisit) (capacity : CapacityByDay) (standing : List StandingVisit)
    (is_feasible : Option FeasibilityCheck) (already_in_calendar : List (String × DateOnly)) where
  abbrev pub board : Board
  board = count_all_standing standing (count_visits required empty_board)

  unfoldable pub counted : Guard
  unfolding count_visits count_all_standing slots_from
  counted = record {
    slots = slots_from 0 already_in_calendar required;
    load = board.load;
    counts = board.counts;
    used_dates = board.used_dates;
    unplaceable = [];
  }

  unfoldable pub spread_over_days : Guard
  unfolding counted relieve overloaded
  spread_over_days =
      relieve capacity board.standing_by_agreement (overloaded capacity board.load) counted

  abbrev pub resolve_with : Option FeasibilityCheck → Guard → Resolved
  resolve_with none guard = record { guard = guard; infeasible = [] }
  resolve_with (some check) guard =
      resolve capacity board.standing_by_agreement standing check
        (sort_by branch_first (map (λ entry. entry.0) guard.load))
        (record { guard = guard; infeasible = [] })

  unfoldable pub resolved : Resolved
  unfolding spread_over_days resolve
  resolved = resolve_with is_feasible spread_over_days

  unfoldable pub apply_daily_load_guard : LoadGuardResult
  unfolding resolved warnings_over
  apply_daily_load_guard =
      let guard : Guard = resolved.guard in
      record {
        required = map (λ slot. slot.visit) guard.slots;
        unplaceable = guard.unplaceable;
        warnings =
            warnings_over capacity guard.slots guard.counts board.standing_per_day
              resolved.infeasible (sort_by (λ a b. branch_first (a.0) (b.0)) guard.load);
      }
