-- ===== src/Catalog/Preview/Compute.antt =====
-- catalog/schedule-preview.ts: the loop of `computeSchedulePreview` over the periods, in order of
-- their index, and its result. One turn of the loop is a `PeriodPlan`: what it pushes.
use ultrakil_scheduling_syst.Prelude.{
  ℕ, ◌+◌, ◌-◌, Bool, true, false, not, ◌&&◌, ◌||◌, Option, none, some, List, [], ◌∷◌, ◌++◌, map,
  String, null, length, find, filter, has, lookup, group_onto, ltb, leb, nat_eq, nat_eqb, pair_eq,
  ◌==◌, get_or_else, if◌then◌else◌,
}
use ultrakil_scheduling_syst.Prelude.Int.{ℤ, pos, ltb_ℤ, int_eq}
use ultrakil_scheduling_syst.Prelude.Sort.{sort_by}
use ultrakil_scheduling_syst.Prelude.Text.{concat, show}
use ultrakil_scheduling_syst.Domain.{
  DateOnly, Minute, VisitPlacement, earliest, booked, DataProvenance, defaulted,
}
use ultrakil_scheduling_syst.Eligibility.Messages.{show_date}
use ultrakil_scheduling_syst.Generation.Requirement.{PreviewAlternative}
use ultrakil_scheduling_syst.Catalog.Periods.{weekday_of, PeriodBounds, period_bounds_of}
use ultrakil_scheduling_syst.Catalog.Windows.{recorded_windows}
use ultrakil_scheduling_syst.Catalog.Preview.{
  SchedulePreviewInput, PreviewVisit, PreviewShortfall, booked_below_frequency, PreviewBookingIssue,
  booked_date_cancelled, PreviewPeriod, Candidate, interval_of, effective_start, last_date,
}
use ultrakil_scheduling_syst.Catalog.Preview.Scan.{Bounds, Scan, scanned}
use ultrakil_scheduling_syst.Catalog.Preview.Choice.{Pick, choose_for_period, alternatives_from}
use ultrakil_scheduling_syst.Catalog.Preview.Texts.{
  ShortfallContext, Explanation, explain_shortfall, Fallback, booked_visit_without_a_usable_window,
}
use ultrakil_scheduling_syst.Catalog.Preview.Turns.{
  PeriodPlan, no_plan, to_visit, is_defaulted, option_list, is_day, candidate_on, is_blocked,
  whole_period, is_clipped, clipped_by_the_horizon, booked_turn, cancelled_issue, booked_turns,
  issues_of, booked_plan,
}
pub mod Periods
pub mod Origins
pub mod Legal
pub mod Bookings
pub mod Counts
pub mod Accounts
pub mod Examples

abbrev pub allowed_in : List Candidate → List Candidate
allowed_in in_period = filter (λ candidate. candidate.is_allowed_day) in_period

abbrev pub joined : PeriodPlan → PeriodPlan → PeriodPlan
joined a b = record {
  visits = a.visits ++ b.visits;
  shortfalls = a.shortfalls ++ b.shortfalls;
  booking_issues = a.booking_issues ++ b.booking_issues;
  planned_periods = a.planned_periods ++ b.planned_periods;
  skipped_periods = a.skipped_periods ++ b.skipped_periods;
}

module _ (input : SchedulePreviewInput) where
  abbrev pub placeable_in : List Candidate → List Candidate
  placeable_in in_period =
      filter (λ candidate. not (is_blocked input candidate.date candidate.window_start_minute))
        (allowed_in in_period)

  abbrev pub picks_of : List Candidate → List Pick
  picks_of in_period =
      choose_for_period (placeable_in in_period) input.frequency_count input.anchor_days

  -- A period that the frequency plans.
  unfoldable pub frequency_plan : Scan → ℤ → Bounds → List Candidate → PeriodPlan
  frequency_plan scan period bounds in_period =
      let allowed_here : List Candidate = allowed_in in_period in
      let placeable : List Candidate = placeable_in in_period in
      let picks : List Pick = picks_of in_period in
      let alternatives : List PreviewAlternative =
        alternatives_from placeable (map (λ pick. pick.candidate.date) picks) in
      let explanation : Explanation = explain_shortfall (record {
        requested = input.frequency_count;
        scheduled = length picks;
        bounds = bounds;
        had_allowed_day = has period scan.periods_with_allowed_day;
        had_open_day = has period scan.periods_with_open_day;
        held_by_a_cancellation =
            ltb (length placeable) (length allowed_here)
            && leb input.frequency_count (length allowed_here);
        duration_minutes = input.duration_minutes;
      }) in
      record no_plan {
        visits = map (λ pick. to_visit pick.candidate pick.placement alternatives) picks;
        planned_periods = whole_period input period ∷ [];
        shortfalls =
            if ltb (length picks) input.frequency_count
              && not (is_clipped input (whole_period input period))
            then record {
              period_start = bounds.start;
              period_end = bounds.end;
              requested = input.frequency_count;
              scheduled = length picks;
              reason = explanation.reason;
              message = explanation.message;
            }
              ∷ []
            else [];
      }

  -- One turn of the loop.
  unfoldable pub plan_period : Scan → ℤ → Bounds → List Candidate → List DateOnly → PeriodPlan
  plan_period scan period bounds in_period booked_dates =
      if not (null booked_dates)
      then booked_plan input period bounds in_period booked_dates
      else if clipped_by_the_horizon input (whole_period input period)
      then record no_plan { skipped_periods = whole_period input period ∷ [] }
      else frequency_plan scan period bounds in_period

  -- `byPeriod.get(period) ?? []`
  unfoldable pub in_period_of : Scan → ℤ → List Candidate
  in_period_of scan period =
      get_or_else (lookup period (group_onto (λ candidate. candidate.period) scan.candidates [])) []

  unfoldable pub plan_of : Scan → ℤ × Bounds → PeriodPlan
  unfolding plan_period in_period_of
  plan_of scan entry =
      plan_period scan (entry.0) (entry.1) (in_period_of scan (entry.0))
        (get_or_else (lookup (entry.0) scan.booked_by_period) [])

  unfoldable pub plan_periods : Scan → List (ℤ × Bounds) → PeriodPlan
  unfolding plan_of
  plan_periods scan [] = no_plan
  plan_periods scan (entry ∷ entries) = joined (plan_of scan entry) (plan_periods scan entries)

pub record SchedulePreview : Type 0 where
  pub visits : List PreviewVisit
  pub shortfalls : List PreviewShortfall
  pub booking_issues : List PreviewBookingIssue
  pub planned_periods : List PreviewPeriod
  pub skipped_periods : List PreviewPeriod
  pub horizon_start : DateOnly
  pub horizon_end : DateOnly

abbrev pub by_index : PreviewPeriod → PreviewPeriod → Bool
by_index a b = ltb_ℤ a.period_index b.period_index

abbrev pub periods_in_order : Scan → List (ℤ × Bounds)
periods_in_order scan = sort_by (λ a b. ltb_ℤ (a.0) (b.0)) scan.period_bounds

unfoldable pub compute_schedule_preview : SchedulePreviewInput → SchedulePreview
unfolding plan_periods
compute_schedule_preview input =
    let scan : Scan = scanned input in
    let plan : PeriodPlan = plan_periods input scan (periods_in_order scan) in
    record {
      visits = sort_by (λ a b. ltb a.date b.date) plan.visits;
      shortfalls = plan.shortfalls;
      booking_issues = sort_by (λ a b. ltb a.date b.date) plan.booking_issues;
      planned_periods = sort_by by_index plan.planned_periods;
      skipped_periods = sort_by by_index plan.skipped_periods;
      horizon_start = effective_start input;
      horizon_end = last_date input;
    }
