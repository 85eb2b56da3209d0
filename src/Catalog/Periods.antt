-- ===== src/Catalog/Periods.antt =====
-- apps/api/src/catalog/schedule-preview.ts: weekdays, ISO weeks, and the periods that a cadence
-- divides the calendar into. A `Date` at midnight is the number of its day, a `DateOnly` where it
-- is a date of the database and an integer where it was computed; `DAY_MS` is then 1.
use ultrakil_scheduling_syst.Prelude.{
  ℕ, suc, ◌+◌, ◌-◌, ◌*◌, ◌/◌, ◌%◌, Option, none, some, List, [], ◌∷◌, get_elem?, get_or_else,
}
use ultrakil_scheduling_syst.Prelude.Int.{ℤ, pos, negsuc, ◌+ℤ◌, ◌-ℤ◌, sub_ℕ, pos_part}
use ultrakil_scheduling_syst.Domain.{
  DateOnly, Weekday, monday, tuesday, wednesday, thursday, friday, saturday, sunday, FrequencyUnit,
  week, month,
}
use ultrakil_scheduling_syst.Eligibility.Messages.{civil}
mod Tiling
pub mod Weeks
mod Months
pub mod Calendar
mod Examples

-- `Math.floor(a / m)`, for a positive m.
unfoldable pub floor_div : ℤ → ℕ → ℤ
floor_div (pos n) m = pos (n / m)
floor_div (negsuc n) m = negsuc (n / m)

unfoldable pub ◌*ℤ◌ : ℤ → ℕ → ℤ
pos n *ℤ m = pos (n * m)
negsuc n *ℤ m = sub_ℕ 0 (suc n * m)

infixl 70 ◌*ℤ◌
-- `getUTCDay`: 0 is Sunday; day 0, 1 March of year 0, is a Wednesday.
unfoldable pub utc_day : DateOnly → ℕ
utc_day date = (date + 3) % 7

abbrev weekday_by_index : List Weekday
weekday_by_index = sunday ∷ monday ∷ tuesday ∷ wednesday ∷ thursday ∷ friday ∷ saturday ∷ []

unfoldable pub weekday_of : DateOnly → Weekday
weekday_of date = get_or_else (get_elem? weekday_by_index (utc_day date)) sunday

unfoldable pub start_of_iso_week : DateOnly → ℤ
start_of_iso_week date = pos date -ℤ pos ((utc_day date + 6) % 7)

-- `Math.round(days / 7)`, that is ⌊days / 7 + 1/2⌋.
unfoldable pub round_to_weeks : ℤ → ℤ
round_to_weeks days = floor_div (days +ℤ days +ℤ pos 7) 14

-- The year and the month of a date as one number; both `getUTCMonth` of a difference count from 0.
unfoldable pub month_number : DateOnly → ℕ
month_number date = (civil date).year * 12 + (civil date).month - 1

unfoldable pub period_index_of : DateOnly → DateOnly → FrequencyUnit → ℕ → ℤ
period_index_of date anchor month interval =
    floor_div (pos (month_number date) -ℤ pos (month_number anchor)) interval
period_index_of date anchor week interval =
    floor_div (round_to_weeks (start_of_iso_week date -ℤ start_of_iso_week anchor)) interval

pub record PeriodBounds : Type 0 where
  pub start : ℤ
  pub end : ℤ

-- `Date.UTC(0, months, 1)`: the first day of a month by its number, from March of year 0 on.
unfoldable pub first_of_month : ℤ → ℤ
first_of_month months =
    let shifted : ℕ = pos_part months - 2 in
    let year : ℕ = shifted / 12 in
    pos (365 * year + year / 4 - year / 100 + year / 400 + (153 * (shifted % 12) + 2) / 5)

unfoldable pub period_bounds_of : ℤ → DateOnly → FrequencyUnit → ℕ → PeriodBounds
period_bounds_of period anchor month interval =
    let first : ℤ = pos (month_number anchor) +ℤ (period *ℤ interval) in
    record { start = first_of_month first; end = first_of_month (first +ℤ pos interval) -ℤ pos 1 }
period_bounds_of period anchor week interval =
    let first : ℤ = start_of_iso_week anchor +ℤ ((period *ℤ interval) *ℤ 7) in
    record { start = first; end = first +ℤ (pos (interval * 7) -ℤ pos 1) }
