-- ===== src/Catalog/Periods/Examples.antt =====
-- Runs of the period arithmetic, on dates of 2024 and 2026.
use ultrakil_scheduling_syst.Prelude.{◌≡◌, refl, ◌↔◌, arith}
use ultrakil_scheduling_syst.Prelude.Int.{pos, negsuc, ◌+ℤ◌, ◌-ℤ◌}
use ultrakil_scheduling_syst.Domain.{DateOnly, monday, thursday, week, month}
use ultrakil_scheduling_syst.Eligibility.Messages.{civil}
use ultrakil_scheduling_syst.Catalog.Periods.{
  floor_div, ◌*ℤ◌, utc_day, weekday_of, start_of_iso_week, round_to_weeks, month_number,
  first_of_month, period_index_of, period_bounds_of,
}
use ultrakil_scheduling_syst.Catalog.Periods.Calendar.{IsWithin, period_index_of-IsWithin}

-- 25 May 2026, a Monday; 8 June 2026; 31 January 2026; 29 February 2024, a Thursday.
abbrev late_may : DateOnly
late_may = 740066

abbrev june : DateOnly
june = 740080

abbrev late_january : DateOnly
late_january = 739952

abbrev leap_day : DateOnly
leap_day = 739250

weekdays : (weekday_of late_may ≡ monday) × (weekday_of leap_day ≡ thursday)
unfolding weekday_of utc_day
weekdays = (refl, refl)

-- The second fortnight, and the month before the agreement's start.
test_weeks : period_index_of june late_may week 2 ≡ pos 1
unfolding period_index_of start_of_iso_week utc_day round_to_weeks floor_div ◌+ℤ◌ ◌-ℤ◌
test_weeks = refl

test_months : period_index_of late_january late_may month 3 ≡ negsuc 1
unfolding period_index_of month_number civil floor_div ◌-ℤ◌
test_months = refl

-- February 2024 has 29 days.
test_bounds :
    period_bounds_of (pos 0) leap_day month 1 ≡ record { start = pos 739222; end = pos 739250 }
unfolding period_bounds_of first_of_month month_number civil floor_div ◌*ℤ◌ ◌+ℤ◌ ◌-ℤ◌
test_bounds = refl

period_index_of-IsWithin_example :
    (period_index_of june late_may week 2 ≡ pos 1)
    ↔ IsWithin (period_bounds_of (pos 1) late_may week 2) june
period_index_of-IsWithin_example =
    period_index_of-IsWithin june late_may week 2 (pos 1) (omega arith)
