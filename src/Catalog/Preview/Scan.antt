-- ===== src/Catalog/Preview/Scan.antt =====
-- catalog/schedule-preview.ts: the loop of `computeSchedulePreview` over the days of the horizon,
-- which gathers the candidates and what a shortfall will want to explain.
use ultrakil_scheduling_syst.Prelude.{
  ℕ, ◌+◌, ◌-◌, Bool, true, false, not, ◌&&◌, ◌||◌, Option, none, some, List, [], ◌∷◌, ◌++◌, null,
  has, add, dedup, lookup, insert, push_under, filter, ltb, leb, nat_eq, ◌==◌, if◌then◌else◌,
}
use ultrakil_scheduling_syst.Prelude.Int.{ℤ, int_eq}
use ultrakil_scheduling_syst.Prelude.Sort.{sort_by}
use ultrakil_scheduling_syst.Domain.{DateOnly, Weekday, weekday_eq}
use ultrakil_scheduling_syst.Catalog.Periods.{weekday_of, period_index_of}
use ultrakil_scheduling_syst.Catalog.Dates.{dates_between}
use ultrakil_scheduling_syst.Catalog.Windows.{
  DayWindow, assumed_day_window, effective_windows, window_provenance_of, recorded_windows,
}
use ultrakil_scheduling_syst.Catalog.Preview.{
  SchedulePreviewInput, Candidate, interval_of, effective_start, last_date,
}
pub mod Legal
pub mod Groups
pub mod Spans

-- The part of a period that the horizon holds.
pub record Bounds : Type 0 where
  pub start : DateOnly
  pub end : DateOnly

pub record Scan : Type 0 where
  pub candidates : List Candidate
  pub periods_with_allowed_day : List ℤ
  pub periods_with_open_day : List ℤ
  pub period_bounds : List (ℤ × Bounds)
  pub booked_by_period : List (ℤ × List DateOnly)

abbrev pub empty_scan : Scan
empty_scan = record {
  candidates = [];
  periods_with_allowed_day = [];
  periods_with_open_day = [];
  period_bounds = [];
  booked_by_period = [];
}

-- The bookings that fall in the horizon, in order.
unfoldable pub booked_in_range : SchedulePreviewInput → List DateOnly
booked_in_range input = sort_by ltb (
    dedup (
      filter (λ date. leb (effective_start input) date && leb date (last_date input))
        input.booked_dates))

abbrev pub stretched : Option Bounds → DateOnly → Bounds
stretched none date = record { start = date; end = date }
stretched (some bounds) date = record bounds { end = date }

-- No hours anywhere for the site means unknown, not shut.
unfoldable pub windows_on : SchedulePreviewInput → Weekday → List DayWindow
windows_on input weekday =
    effective_windows
      (if null input.site_windows
        then assumed_day_window ∷ []
        else recorded_windows input.site_windows weekday)
      input.agreement_window_start_minute input.agreement_window_end_minute

-- A window that is too short for the visit gives no candidate.
unfoldable pub candidates_in : SchedulePreviewInput → DateOnly → List DayWindow → List Candidate
candidates_in input date [] = []
candidates_in input date (window ∷ windows) =
    let rest : List Candidate = candidates_in input date windows in
    if ltb (window.end_minute - window.start_minute) input.duration_minutes
    then rest
    else record {
      date = date;
      weekday = weekday_of date;
      window_start_minute = window.start_minute;
      window_end_minute = window.end_minute;
      is_preferred_day = has (weekday_of date) input.preferred_days;
      window_provenance =
          window_provenance_of (not (null input.site_windows)) window.provenance
            input.agreement_window_start_minute input.agreement_window_end_minute
            window.start_minute window.end_minute;
      period = period_index_of date input.start_date input.frequency_unit (interval_of input);
      is_allowed_day = has (weekday_of date) input.allowed_days;
    }
      ∷ rest

-- What a day that may be used adds to the scan.
unfoldable pub scan_day : SchedulePreviewInput → ℤ → DateOnly → Scan → Scan
scan_day input period date scan =
    let is_allowed : Bool = has (weekday_of date) input.allowed_days in
    let windows : List DayWindow = windows_on input (weekday_of date) in
    record scan {
      candidates = scan.candidates ++ candidates_in input date windows;
      periods_with_allowed_day =
          if is_allowed
          then add period scan.periods_with_allowed_day
          else scan.periods_with_allowed_day;
      periods_with_open_day =
          if is_allowed && not (null windows)
          then add period scan.periods_with_open_day
          else scan.periods_with_open_day;
    }

-- The body of the loop.
unfoldable pub scan_step : SchedulePreviewInput → Scan → DateOnly → Scan
unfolding scan_day
scan_step input scan date =
    let period : ℤ =
      period_index_of date input.start_date input.frequency_unit (interval_of input) in
    let is_allowed : Bool = has (weekday_of date) input.allowed_days in
    let is_booked : Bool = has date (booked_in_range input) in
    let seen : Scan = record scan {
      period_bounds =
          insert period (stretched (lookup period scan.period_bounds) date) scan.period_bounds;
      booked_by_period =
          if is_booked then push_under period date scan.booked_by_period else scan.booked_by_period;
    } in
    if not is_allowed && not is_booked then seen else scan_day input period date seen

unfoldable pub scan_days : SchedulePreviewInput → List DateOnly → Scan → Scan
unfolding scan_step
scan_days input [] scan = scan
scan_days input (date ∷ dates) scan = scan_days input dates (scan_step input scan date)

abbrev pub scanned : SchedulePreviewInput → Scan
scanned input = scan_days input (dates_between (effective_start input) (last_date input)) empty_scan
