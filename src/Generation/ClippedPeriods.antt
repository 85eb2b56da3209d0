-- ===== src/Generation/ClippedPeriods.antt =====
-- apps/api/src/scheduling/visit-generation/clipped-periods.ts: which of the periods that a range
-- cut are at risk of never being planned. The first and last day of a period are computed days, so
-- they are integers; the days of the range are dates.
use ultrakil_scheduling_syst.Prelude.{
  ℕ, ◌+◌, Bool, true, false, not, ◌&&◌, ◌||◌, List, filter, has, nat_eqb, ltb, if◌then◌else◌,
}
use ultrakil_scheduling_syst.Prelude.Int.{ℤ, pos, ◌+ℤ◌, ◌-ℤ◌, ltb_ℤ, leb_ℤ, int_eq}
use ultrakil_scheduling_syst.Domain.{DateOnly, FrequencyUnit, week, month}
use ultrakil_scheduling_syst.Eligibility.Messages.{civil}
use ultrakil_scheduling_syst.Catalog.Periods.{
  utc_day, start_of_iso_week, month_number, first_of_month,
}
pub mod Fortnights
mod Examples

abbrev pub is_week : FrequencyUnit → Bool
is_week week = true
is_week month = false

unfoldable pub clipping_one_may_lose_it : FrequencyUnit → ℕ → Bool
clipping_one_may_lose_it unit interval = is_week unit && ltb 1 interval

pub record PreviewSkippedPeriod : Type 0 where
  pub period_index : ℤ
  pub start : ℤ
  pub end : ℤ

pub record ClippedPeriodScope : Type 0 where
  pub from : DateOnly
  pub to : DateOnly
  pub periods_holding_a_visit : List ℤ

-- The first of the month that starts on or after `from`, and the last day of that month.
unfoldable pub looks_like_a_month_grid : DateOnly → DateOnly → Bool
looks_like_a_month_grid from to =
    let next : ℕ = if nat_eqb (civil from).day 1 then 0 else 1 in
    let months : ℤ = pos (month_number from + next) in
    let last_of_month : ℤ = first_of_month (months +ℤ pos 1) -ℤ pos 1 in
    if not (nat_eqb (utc_day from) 1) || not (nat_eqb (utc_day to) 0)
    then false
    else if nat_eqb (civil (to + 1)).day 1
    then false
    else leb_ℤ (pos from) (first_of_month months) && leb_ℤ last_of_month (pos to)

-- The test of the filter.
unfoldable pub is_at_risk : ClippedPeriodScope → PreviewSkippedPeriod → Bool
is_at_risk scope period =
    if has period.period_index scope.periods_holding_a_visit
    then false
    else if ltb_ℤ (pos scope.to) period.end
    then not (looks_like_a_month_grid scope.from scope.to)
      || ltb_ℤ period.start (start_of_iso_week scope.to)
    else ltb_ℤ period.start (pos scope.from)

unfoldable pub clipped_periods_at_risk :
    List PreviewSkippedPeriod → ClippedPeriodScope → List PreviewSkippedPeriod
clipped_periods_at_risk skipped scope = filter (is_at_risk scope) skipped
