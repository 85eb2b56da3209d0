-- ===== src/Generation/ClippedPeriods/Fortnights.antt =====
-- clipped-periods.ts: a month grid reaches far enough for every fortnight that its end cuts.
use ultrakil_scheduling_syst.Prelude.{
  ◌+◌, ◌%◌, ◌≡◌, refl, inl, inr, Bool, true, false, not, ◌||◌, List, filter, has, In, In-has,
  In-filter, All, All-In, All-of_In, arith, Bool-cases, nat_eqb, if◌then◌else◌, nat_eqb_iff,
}
use ultrakil_scheduling_syst.Prelude.Int.{
  ℤ, pos, ◌+ℤ◌, ◌≤ℤ◌, ltb_ℤ, +ℤ_parts, int_eq, int_laws, ltb_ℤ→lt,
}
use ultrakil_scheduling_syst.Domain.{DateOnly, week}
use ultrakil_scheduling_syst.Catalog.Periods.{
  ◌*ℤ◌, utc_day, start_of_iso_week, PeriodBounds, period_bounds_of,
}
use ultrakil_scheduling_syst.Catalog.Periods.Weeks.{start_of_iso_week_parts, times_parts}
use ultrakil_scheduling_syst.Generation.ClippedPeriods.{
  PreviewSkippedPeriod, ClippedPeriodScope, looks_like_a_month_grid, is_at_risk,
  clipped_periods_at_risk,
}

-- The whole span of the fortnight of its index, as a fortnightly agreement counts them.
abbrev pub IsFortnightOf : DateOnly → PreviewSkippedPeriod → Type 0
IsFortnightOf anchor period =
    let bounds : PeriodBounds = period_bounds_of period.period_index anchor week 2 in
    (period.start ≡ bounds.start) × (period.end ≡ bounds.end)

guarded : (a b c : Bool) → (if not a || not b then false else c) ≡ true → b ≡ true
guarded true true c e = refl
guarded true false c e = absurd (cc)
guarded false b c e = absurd (cc)

sunday_of_grid : (from to : DateOnly) → looks_like_a_month_grid from to ≡ true → utc_day to ≡ 0
unfolding looks_like_a_month_grid
sunday_of_grid from to grid =
    (nat_eqb_iff (utc_day to) 0).0
      (guarded (nat_eqb (utc_day from) 1) (nat_eqb (utc_day to) 0) _ grid)

-- A fortnight starts on a Monday, so one that a Sunday cuts starts with that Sunday's week.
fortnight_start :
    (anchor to : DateOnly) (k : ℤ)
    → utc_day to ≡ 0
    → ltb_ℤ (pos to) ((period_bounds_of k anchor week 2).end) ≡ true
    → ¬ (ltb_ℤ ((period_bounds_of k anchor week 2).start) (start_of_iso_week to) ≡ true)
unfolding period_bounds_of utc_day
fortnight_start anchor to k sunday cut early =
    let first = start_of_iso_week_parts anchor in
    let last_week = start_of_iso_week_parts to in
    let whole = times_parts (k *ℤ 2) in
    let day : (to + 3) % 7 ≡ 0 = sunday in
    let bounds : PeriodBounds = period_bounds_of k anchor week 2 in
    let ends = ltb_ℤ→lt (pos to) bounds.end cut in
    let begins = ltb_ℤ→lt bounds.start (start_of_iso_week to) early in omega int_laws

false_risk : ¬ (false ≡ true)
false_risk e = cc

clash : {b : Bool} → b ≡ true → b ≡ false → ⊥
clash t f = cc

before : (a b : ℤ) → ltb_ℤ a b ≡ true → a +ℤ pos 1 ≤ℤ b
before a b h = let part = +ℤ_parts a (pos 1) in ground arith

not_after : (a b : ℤ) → ltb_ℤ b a ≡ false → a ≤ℤ b
not_after a b h = ground arith

reported :
    (anchor : DateOnly) (scope : ClippedPeriodScope) (period : PreviewSkippedPeriod)
    → looks_like_a_month_grid scope.from scope.to ≡ true
    → IsFortnightOf anchor period
    → is_at_risk scope period ≡ true
    → (period.start +ℤ pos 1 ≤ℤ pos scope.from)
      × (period.end ≤ℤ pos scope.to)
      × ¬ In period.period_index scope.periods_holding_a_visit
unfolding is_at_risk
reported anchor scope period grid (start, end) risk =
    elim (Bool-cases (has period.period_index scope.periods_holding_a_visit)) [
      | inl holds ↦ absurd (false_risk (rw (holds, is_at_risk) at risk))
      | inr empty ↦ elim (Bool-cases (ltb_ℤ (pos scope.to) period.end)) [
        | inl cut ↦
            let early : ltb_ℤ period.start (start_of_iso_week scope.to) ≡ true =
              rw (empty, cut, grid, is_at_risk) at risk in
            absurd (
              fortnight_start anchor scope.to period.period_index
                (sunday_of_grid scope.from scope.to grid) (rw (← end) cut) (rw (← start) early))
        | inr inside ↦
            let early : ltb_ℤ period.start (pos scope.from) ≡ true =
              rw (empty, inside, is_at_risk) at risk in
            (
              before period.start (pos scope.from) early,
              not_after period.end (pos scope.to) inside,
              λ m. clash (In-has _ _ m) empty,
            )
      ]
    ]

-- In a month grid no fortnight that the end of the range cuts is reported: where every period
-- handed over is a fortnight of one agreement, each one that is reported began before the range
-- and ends no later than it, and no visit stands in it.
pub clipped_periods_at_risk-fortnights :
    (anchor : DateOnly) (skipped : List PreviewSkippedPeriod) (scope : ClippedPeriodScope)
    → looks_like_a_month_grid scope.from scope.to ≡ true
    → All (IsFortnightOf anchor) skipped
    → All
        (λ period.
          (period.start +ℤ pos 1 ≤ℤ pos scope.from)
          × (period.end ≤ℤ pos scope.to)
          × ¬ In period.period_index scope.periods_holding_a_visit)
        (clipped_periods_at_risk skipped scope)
unfolding clipped_periods_at_risk
clipped_periods_at_risk-fortnights anchor skipped scope grid fortnights =
    All-of_In _ (filter (is_at_risk scope) skipped) (λ period m.
      let (handed, risk) = In-filter (is_at_risk scope) skipped {a = period} m in
      reported anchor scope period grid (All-In (IsFortnightOf anchor) skipped fortnights handed)
        risk)
