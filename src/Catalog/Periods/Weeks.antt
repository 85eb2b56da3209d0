-- ===== src/Catalog/Periods/Weeks.antt =====
-- catalog/schedule-preview.ts: the periods of a weekly cadence are a tiling of the calendar.
use ultrakil_scheduling_syst.Prelude.{
  ℕ, zero, suc, ◌+◌, ◌*◌, ◌/◌, ◌≤◌, ◌≡◌, sym, ◌∙◌, ap, ◌↔◌, arith,
}
use ultrakil_scheduling_syst.Prelude.Int.{
  ℤ, pos, negsuc, ◌+ℤ◌, ◌-ℤ◌, ◌≤ℤ◌, sub_ℕ, pos_part, neg_part, int_laws,
}
use ultrakil_scheduling_syst.Domain.{DateOnly, week}
use ultrakil_scheduling_syst.Catalog.Periods.{
  floor_div, ◌*ℤ◌, utc_day, start_of_iso_week, round_to_weeks, period_index_of, period_bounds_of,
}
use ultrakil_scheduling_syst.Catalog.Periods.Tiling.{
  IsPeriodOf, floor_div-IsPeriodOf, IsPeriodOf-unique,
}

-- The number of Mondays up to a date, which places its week.
abbrev pub week_number : DateOnly → ℕ
week_number date = (date + 2) / 7

pub start_of_iso_week_parts :
    (date : DateOnly)
    → pos_part (start_of_iso_week date) + 2
      ≡ 7 * week_number date + neg_part (start_of_iso_week date)
unfolding start_of_iso_week utc_day ◌-ℤ◌
start_of_iso_week_parts date = ground arith

-- A number of whole weeks is rounded to itself.
round_to_weeks_lem :
    (days : ℤ) (a b : ℕ)
    → pos_part days + 7 * a ≡ 7 * b + neg_part days
    → round_to_weeks days ≡ sub_ℕ b a
unfolding round_to_weeks floor_div ◌+ℤ◌
round_to_weeks_lem (pos x) a b h = ground arith
round_to_weeks_lem (negsuc x) a b h = ground arith

weeks_between :
    (date anchor : DateOnly)
    → round_to_weeks (start_of_iso_week date -ℤ start_of_iso_week anchor)
      ≡ sub_ℕ (week_number date) (week_number anchor)
weeks_between date anchor =
    let s = start_of_iso_week_parts date in
    let t = start_of_iso_week_parts anchor in
    round_to_weeks_lem _ (week_number anchor) (week_number date) (omega int_laws)

pub times_parts : (x : ℤ) → pos_part (x *ℤ 7) + 7 * neg_part x ≡ 7 * pos_part x + neg_part (x *ℤ 7)
unfolding ◌*ℤ◌
times_parts x = ground arith

sub_parts : (b a : ℕ) → pos_part (sub_ℕ b a) + a ≡ b + neg_part (sub_ℕ b a)
sub_parts b a = ground arith

-- The two ends of a weekly period, against the number of a date's week.
in_bounds_iff :
    (date anchor : DateOnly) (period : ℤ) (n : ℕ)
    → ((period_bounds_of period anchor week n).start ≤ℤ pos date)
        × (pos date ≤ℤ (period_bounds_of period anchor week n).end)
      ↔ IsPeriodOf (sub_ℕ (week_number date) (week_number anchor)) n period
unfolding period_bounds_of
in_bounds_iff date anchor period n =
    let s = start_of_iso_week_parts anchor in
    let whole = times_parts (period *ℤ n) in
    let weeks = sub_parts (week_number date) (week_number anchor) in
    (
      λ (start, end). (omega int_laws, omega int_laws),
      λ (low, high). (omega int_laws, omega int_laws),
    )

index_iff :
    (date anchor : DateOnly) (n : ℕ) (period : ℤ)
    → (period_index_of date anchor week (suc n) ≡ period)
      ↔ ((period_bounds_of period anchor week (suc n)).start ≤ℤ pos date)
        × (pos date ≤ℤ (period_bounds_of period anchor week (suc n)).end)
unfolding period_index_of
index_iff date anchor n period =
    let z : ℤ = sub_ℕ (week_number date) (week_number anchor) in
    let own = floor_div-IsPeriodOf z n in
    (
      λ e.
          (in_bounds_iff date anchor period (suc n)).1
            (rw (sym e ∙ ap (λ w. floor_div w (suc n)) (weeks_between date anchor)) own),
      λ inside.
          ap (λ w. floor_div w (suc n)) (weeks_between date anchor)
          ∙ IsPeriodOf-unique z (suc n) _ period own
              ((in_bounds_iff date anchor period (suc n)).0 inside),
    )

-- With a cadence of one or more weeks, the period that a date is given is the one period whose
-- first and last day enclose the date: the periods leave no gap and do not overlap, also before
-- the agreement's own start.
pub period_index_of_week :
    (date anchor : DateOnly) (interval : ℕ) (period : ℤ)
    → 1 ≤ interval
    → (period_index_of date anchor week interval ≡ period)
      ↔ ((period_bounds_of period anchor week interval).start ≤ℤ pos date)
        × (pos date ≤ℤ (period_bounds_of period anchor week interval).end)
period_index_of_week date anchor zero period h = absurd (omega arith)
period_index_of_week date anchor (suc n) period h = index_iff date anchor n period
