-- ===== src/Catalog/Preview/Turns.antt =====
-- catalog/schedule-preview.ts: what one turn of the loop over the periods pushes, and the turn of a
-- period with bookings.
use ultrakil_scheduling_syst.Prelude.{
  Bool, true, false, not, ◌&&◌, ◌||◌, Option, none, some, List, [], ◌∷◌, ◌++◌, map, length, find,
  has, ltb, nat_eq, nat_eqb, pair_eq, if◌then◌else◌,
}
use ultrakil_scheduling_syst.Prelude.Int.{ℤ, pos, ltb_ℤ, int_eq}
use ultrakil_scheduling_syst.Prelude.Sort.{sort_by}
use ultrakil_scheduling_syst.Prelude.Text.{concat, show}
use ultrakil_scheduling_syst.Domain.{
  DateOnly, Minute, VisitPlacement, booked, DataProvenance, defaulted,
}
use ultrakil_scheduling_syst.Eligibility.Messages.{show_date}
use ultrakil_scheduling_syst.Generation.Requirement.{PreviewAlternative}
use ultrakil_scheduling_syst.Catalog.Periods.{weekday_of, PeriodBounds, period_bounds_of}
use ultrakil_scheduling_syst.Catalog.Windows.{recorded_windows}
use ultrakil_scheduling_syst.Catalog.Preview.{
  SchedulePreviewInput, PreviewVisit, PreviewShortfall, booked_below_frequency, PreviewBookingIssue,
  booked_date_cancelled, PreviewPeriod, Candidate, interval_of, effective_start, last_date,
}
use ultrakil_scheduling_syst.Catalog.Preview.Scan.{Bounds}
use ultrakil_scheduling_syst.Catalog.Preview.Texts.{Fallback, booked_visit_without_a_usable_window}

pub record PeriodPlan : Type 0 where
  pub visits : List PreviewVisit
  pub shortfalls : List PreviewShortfall
  pub booking_issues : List PreviewBookingIssue
  pub planned_periods : List PreviewPeriod
  pub skipped_periods : List PreviewPeriod

abbrev pub no_plan : PeriodPlan
no_plan = record {
  visits = [];
  shortfalls = [];
  booking_issues = [];
  planned_periods = [];
  skipped_periods = [];
}

abbrev pub to_visit : Candidate → VisitPlacement → List PreviewAlternative → PreviewVisit
to_visit candidate placement alternatives = record {
  date = candidate.date;
  weekday = candidate.weekday;
  window_start_minute = candidate.window_start_minute;
  window_end_minute = candidate.window_end_minute;
  is_preferred_day = candidate.is_preferred_day;
  placement = placement;
  period_index = candidate.period;
  alternatives = alternatives;
  window_provenance = candidate.window_provenance;
}

abbrev pub is_defaulted : DataProvenance → Bool
is_defaulted defaulted = true
is_defaulted _ = false

abbrev pub option_list : {A : Type 0} → Option A → List A
option_list none = []
option_list (some a) = a ∷ []

abbrev pub is_day : Option DateOnly → DateOnly → Bool
is_day none date = false
is_day (some end) date = nat_eqb date end

-- `byDate`: the first candidate of each date, in order of the start minute.
unfoldable pub candidate_on : List Candidate → DateOnly → Option Candidate
candidate_on in_period date =
    find (λ candidate. nat_eqb candidate.date date)
      (sort_by (λ a b. ltb a.window_start_minute b.window_start_minute) in_period)

module _ (input : SchedulePreviewInput) where
  -- `blocked.has(slotKey(date, minute))`
  unfoldable pub is_blocked : DateOnly → Minute → Bool
  is_blocked date minute =
      has {A = DateOnly × Minute} (date, minute)
        (map (λ slot. (slot.date, slot.window_start_minute)) input.blocked_slots)

  unfoldable pub whole_period : ℤ → PreviewPeriod
  whole_period period =
      let bounds : PeriodBounds =
        period_bounds_of period input.start_date input.frequency_unit (interval_of input) in
      record { period_index = period; start = bounds.start; end = bounds.end }

  -- The range holds only a slice of the period.
  unfoldable pub is_clipped : PreviewPeriod → Bool
  is_clipped whole =
      ltb_ℤ whole.start (pos (effective_start input)) || ltb_ℤ (pos (last_date input)) whole.end

  -- And what cut it was the horizon, not the agreement's own first or last day.
  unfoldable pub clipped_by_the_horizon : PreviewPeriod → Bool
  clipped_by_the_horizon whole =
      let starts : Bool = nat_eqb (effective_start input) input.start_date in
      let ends : Bool = is_day input.end_date (last_date input) in
      input.whole_periods_only
      && (ltb_ℤ whole.start (pos (effective_start input)) && not starts
          || ltb_ℤ (pos (last_date input)) whole.end && not ends)

  -- A booked date on the first candidate of the day, or on the window that the fallback finds.
  abbrev pub booked_turn : DateOnly → ℤ → Option Candidate → Fallback
  booked_turn date period none =
      booked_visit_without_a_usable_window date period input
        (recorded_windows input.site_windows (weekday_of date))
  booked_turn date period (some candidate) = record {
    visit = to_visit candidate booked [];
    issue = none;
  }

  unfoldable pub cancelled_issue : PreviewVisit → List PreviewBookingIssue
  cancelled_issue planned =
      if is_blocked planned.date planned.window_start_minute
      then record {
        date = planned.date;
        reason = booked_date_cancelled;
        window_start_minute = planned.window_start_minute;
        window_end_minute = planned.window_end_minute;
        window_assumed = is_defaulted planned.window_provenance;
        message = concat (
            show_date planned.date
            ∷ " is booked with the customer, but the visit on that date is cancelled. A cancelled visit is never removed and its slot can never be re-used, so nothing new can be planned on the day that was agreed — the calendar reads as already correct while the customer has no visit. Reinstate that visit, or agree another date with the customer."
            ∷ []);
      }
        ∷ []
      else []

  unfoldable pub booked_turns : List Candidate → ℤ → List DateOnly → List Fallback
  booked_turns in_period period [] = []
  booked_turns in_period period (date ∷ dates) =
      booked_turn date period (candidate_on in_period date) ∷ booked_turns in_period period dates

  unfoldable pub issues_of : List Fallback → List PreviewBookingIssue
  issues_of [] = []
  issues_of (turn ∷ turns) = option_list turn.issue ++ cancelled_issue turn.visit ++ issues_of turns

  -- A period with bookings: its visits are those dates, in that order.
  unfoldable pub booked_plan : ℤ → Bounds → List Candidate → List DateOnly → PeriodPlan
  booked_plan period bounds in_period booked_dates =
      let turns : List Fallback = booked_turns in_period period booked_dates in
      record no_plan {
        visits = map (λ turn. turn.visit) turns;
        booking_issues = issues_of turns;
        planned_periods = whole_period period ∷ [];
        shortfalls =
            if ltb (length booked_dates) input.frequency_count
              && not (is_clipped (whole_period period))
            then record {
              period_start = bounds.start;
              period_end = bounds.end;
              requested = input.frequency_count;
              scheduled = length booked_dates;
              reason = booked_below_frequency;
              message = concat (
                  "Only "
                  ∷ show (length booked_dates)
                  ∷ " of the "
                  ∷ show input.frequency_count
                  ∷ " visit(s) this agreement promises between "
                  ∷ show_date bounds.start
                  ∷ " and "
                  ∷ show_date bounds.end
                  ∷ " are booked in the workbook. The booked dates are used exactly as written and no extra visit is planned — add the missing date to the workbook, or lower the frequency."
                  ∷ []);
            }
              ∷ []
            else [];
      }
