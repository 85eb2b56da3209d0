-- ===== src/Catalog/Preview/Compute/Examples.antt =====
-- Two visits a week from Monday 25 May 2026, on Mondays and Wednesdays, over two weeks and a day.
use ultrakil_scheduling_syst.Prelude.{
  ℕ, ◌≡◌, refl, ◌↔◌, ◌⊎◌, inl, none, some, List, [], ◌∷◌, Any, In, arith, map, has, add, dedup,
  dedup_from, group_onto, push_under, lookup, insert, true, false,
}
use ultrakil_scheduling_syst.Prelude.Int.{ℤ, pos, ◌+ℤ◌, ◌-ℤ◌}
use ultrakil_scheduling_syst.Prelude.Sort.{sort_by, insert_sorted}
use ultrakil_scheduling_syst.Domain.{
  DateOnly, Weekday-discrete, VisitPlacement, monday, wednesday, week, booked, earliest, defaulted,
}
use ultrakil_scheduling_syst.Catalog.Periods.{
  floor_div, ◌*ℤ◌, utc_day, weekday_of, start_of_iso_week, round_to_weeks, period_index_of,
  period_bounds_of,
}
use ultrakil_scheduling_syst.Catalog.Dates.{days_from, dates_between}
use ultrakil_scheduling_syst.Catalog.Windows.{
  narrowed, narrowed_windows, effective_windows, window_provenance_of, recorded_windows,
}
use ultrakil_scheduling_syst.Catalog.Preview.{
  SchedulePreviewInput, PreviewVisit, PreviewPeriod, Candidate, ShortfallReason,
  booked_below_frequency, period_held_by_a_cancelled_visit,
}
use ultrakil_scheduling_syst.Catalog.Preview.Scan.{
  booked_in_range, windows_on, candidates_in, scan_day, scan_step, scan_days,
}
use ultrakil_scheduling_syst.Catalog.Preview.Scan.Legal.{own_period}
use ultrakil_scheduling_syst.Catalog.Preview.Choice.{
  earlier, ranks_before, take, take_anchors, take_earliest, chosen, choose_for_period,
  alternatives_over, alternatives_from,
}
use ultrakil_scheduling_syst.Catalog.Preview.Choice.Picks.{
  IsSelection, choose_for_period-IsSelection,
}
use ultrakil_scheduling_syst.Catalog.Preview.Texts.{explain_shortfall}
use ultrakil_scheduling_syst.Catalog.Preview.Turns.{
  is_blocked, whole_period, is_clipped, clipped_by_the_horizon, cancelled_issue, candidate_on,
  booked_turns, issues_of, booked_plan,
}
use ultrakil_scheduling_syst.Catalog.Preview.Compute.{
  frequency_plan, plan_period, in_period_of, plan_of, plan_periods, SchedulePreview,
  compute_schedule_preview,
}
use ultrakil_scheduling_syst.Catalog.Preview.Compute.Bookings.{IsBookedOn}
use ultrakil_scheduling_syst.Catalog.Preview.Compute.Legal.{
  IsLegalVisit, compute_schedule_preview-IsLegalVisit, compute_schedule_preview_booked,
}
use ultrakil_scheduling_syst.Catalog.Preview.Compute.Origins.{IsAgreed}
use ultrakil_scheduling_syst.Catalog.Preview.Compute.Accounts.{
  IsPlannedIn, IsLeftOutOf, compute_schedule_preview_accounts,
}

-- The first Monday's slot is held by a cancelled visit, the second Tuesday is agreed, and of the
-- third week the horizon holds the Monday alone.
abbrev input : SchedulePreviewInput
input = record {
  frequency_count = 2;
  frequency_unit = week;
  frequency_interval = none;
  allowed_days = monday ∷ wednesday ∷ [];
  preferred_days = [];
  start_date = 740066;
  end_date = none;
  site_windows = [];
  agreement_window_start_minute = none;
  agreement_window_end_minute = some 720;
  duration_minutes = 60;
  horizon_weeks = none;
  from = none;
  to = some 740080;
  blocked_slots = record { date = 740066; window_start_minute = 480 } ∷ [];
  booked_dates = 740074 ∷ [];
  anchor_days = [];
  whole_periods_only = true;
}

abbrev whole_week : ℤ → ℤ → ℤ → PreviewPeriod
whole_week index start end = record { period_index = index; start = start; end = end }

-- The Wednesday of the first week.
abbrev planned_visit : PreviewVisit
planned_visit = record {
  date = 740068;
  weekday = wednesday;
  window_start_minute = 480;
  window_end_minute = 720;
  is_preferred_day = false;
  placement = earliest;
  period_index = pos 0;
  alternatives = [];
  window_provenance = defaulted;
}

-- The first week and the second are planned, each short by one; the third is left out.
record IsExpected (preview : SchedulePreview) : Type 0 where
  visits :
      map {B = DateOnly × VisitPlacement} (λ visit. (visit.date, visit.placement)) preview.visits
      ≡ (740068, earliest) ∷ (740074, booked) ∷ []
  first_visit : In planned_visit preview.visits
  planned :
      preview.planned_periods
      ≡ whole_week (pos 0) (pos 740066) (pos 740072)
        ∷ whole_week (pos 1) (pos 740073) (pos 740079)
        ∷ []
  skipped : preview.skipped_periods ≡ whole_week (pos 2) (pos 740080) (pos 740086) ∷ []
  shortfalls :
      map {B = ℕ × ShortfallReason} (λ s. (s.scheduled, s.reason)) preview.shortfalls
      ≡ (1, period_held_by_a_cancelled_visit) ∷ (1, booked_below_frequency) ∷ []

test_preview : IsExpected (compute_schedule_preview input)
unfolding compute_schedule_preview plan_periods plan_of in_period_of plan_period frequency_plan
    booked_plan issues_of booked_turns candidate_on cancelled_issue clipped_by_the_horizon
    is_clipped whole_period is_blocked choose_for_period chosen take_earliest take_anchors take
    ranks_before earlier alternatives_from alternatives_over scan_days scan_step scan_day
    candidates_in windows_on booked_in_range dedup dedup_from add effective_windows narrowed_windows
    narrowed recorded_windows group_onto push_under lookup insert has sort_by insert_sorted
    dates_between days_from weekday_of utc_day start_of_iso_week round_to_weeks floor_div
    period_index_of period_bounds_of explain_shortfall window_provenance_of Weekday-discrete ◌*ℤ◌
    ◌+ℤ◌ ◌-ℤ◌
test_preview = record {
  visits = refl;
  first_visit = inl refl;
  planned = refl;
  skipped = refl;
  shortfalls = refl;
}

compute_schedule_preview-IsLegalVisit_example :
    (IsAgreed input 740068 × (earliest ≡ booked)) ⊎ IsLegalVisit input planned_visit
compute_schedule_preview-IsLegalVisit_example =
    compute_schedule_preview-IsLegalVisit input (omega arith) planned_visit test_preview.first_visit

compute_schedule_preview_booked_example :
    Any (IsBookedOn 740074) (compute_schedule_preview input).visits ↔ IsAgreed input 740074
compute_schedule_preview_booked_example = compute_schedule_preview_booked input 740074

compute_schedule_preview_accounts_example :
    IsPlannedIn input (compute_schedule_preview input) (own_period input 740067)
    ⊎ IsLeftOutOf input (compute_schedule_preview input) (own_period input 740067)
compute_schedule_preview_accounts_example =
    compute_schedule_preview_accounts input 740067 (omega arith, omega arith)

abbrev candidate_at : DateOnly → ℕ → Candidate
candidate_at date start = record {
  date = date;
  weekday = monday;
  window_start_minute = start;
  window_end_minute = 720;
  is_preferred_day = false;
  window_provenance = defaulted;
  period = pos 0;
  is_allowed_day = true;
}

-- Morning and afternoon of one day are one day.
abbrev days : List Candidate
days = candidate_at 740068 480 ∷ candidate_at 740066 600 ∷ candidate_at 740066 480 ∷ []

test_picks :
    map {B = DateOnly × ℕ}
      (λ pick. (pick.candidate.date, pick.candidate.window_start_minute))
      (choose_for_period days 3 [])
    ≡ (740066, 480) ∷ (740068, 480) ∷ []
unfolding choose_for_period chosen take_earliest take_anchors take ranks_before earlier add has
    sort_by insert_sorted
test_picks = refl

choose_for_period-IsSelection_example : IsSelection days 3 (choose_for_period days 3 (28 ∷ []))
choose_for_period-IsSelection_example = choose_for_period-IsSelection days 3 (28 ∷ [])
