-- ===== src/Catalog/Periods/Calendar.antt =====
-- catalog/schedule-preview.ts: the periods of every cadence against the dates of the calendar.
use ultrakil_scheduling_syst.Prelude.{ℕ, ◌≤◌, ◌≡◌, ◌↔◌}
use ultrakil_scheduling_syst.Prelude.Int.{ℤ, pos, ◌≤ℤ◌}
use ultrakil_scheduling_syst.Domain.{DateOnly, FrequencyUnit, week, month}
use ultrakil_scheduling_syst.Catalog.Periods.{PeriodBounds, period_index_of, period_bounds_of}
use ultrakil_scheduling_syst.Catalog.Periods.Weeks.{period_index_of_week}
use ultrakil_scheduling_syst.Catalog.Periods.Months.{period_index_of_month}

abbrev pub IsWithin : PeriodBounds → DateOnly → Type 0
IsWithin bounds date = (bounds.start ≤ℤ pos date) × (pos date ≤ℤ bounds.end)

-- For a cadence of one or more weeks or months, the period that a date is given is the one period
-- whose first and last day enclose the date. So the periods leave no gap and never overlap, also
-- before the agreement's own start.
pub period_index_of-IsWithin :
    (date anchor : DateOnly) (unit : FrequencyUnit) (interval : ℕ) (period : ℤ)
    → 1 ≤ interval
    → (period_index_of date anchor unit interval ≡ period)
      ↔ IsWithin (period_bounds_of period anchor unit interval) date
period_index_of-IsWithin date anchor week interval period h =
    period_index_of_week date anchor interval period h
period_index_of-IsWithin date anchor month interval period h =
    period_index_of_month date anchor interval period h
