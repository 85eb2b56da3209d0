-- ===== src/Catalog/Periods/Months.antt =====
-- catalog/schedule-preview.ts: the months of the calendar and the periods of a monthly cadence.
use ultrakil_scheduling_syst.Prelude.{
  ℕ, zero, suc, ◌+◌, ◌-◌, ◌*◌, ◌/◌, ◌%◌, ◌≤◌, ◌≡◌, refl, sym, ap, ◌↔◌, ◌⊎◌, arith, inl, inr,
  if◌then◌else◌, ltb, leb, Bool-cases, ℕ_discrete,
}
use ultrakil_scheduling_syst.Prelude.Int.{
  ℤ, pos, negsuc, ◌+ℤ◌, ◌-ℤ◌, ◌≤ℤ◌, leb_ℤ, +ℤ_parts, int_laws,
}
use ultrakil_scheduling_syst.Domain.{DateOnly, month}
use ultrakil_scheduling_syst.Eligibility.Messages.{civil}
use ultrakil_scheduling_syst.Catalog.Periods.{
  ◌*ℤ◌, month_number, first_of_month, period_index_of, period_bounds_of,
}
use ultrakil_scheduling_syst.Catalog.Periods.Tiling.{
  IsPeriodOf, floor_div-IsPeriodOf, IsPeriodOf-unique,
}

-- The days before a year of an era, counted from March.
abbrev days_before : ℕ → ℕ
days_before y = 365 * y + y / 4 - y / 100

unfoldable year_of : ℕ → ℕ
year_of doe = (doe - doe / 1460 + doe / 36524 - doe / 146096) / 365

year_start : (doe : ℕ) → suc doe ≤ 146097 → days_before (year_of doe) ≤ doe
unfolding year_of
year_start doe h = omega arith

year_end :
    (doe : ℕ) → suc doe ≤ 146097 → suc doe ≤ days_before (suc (year_of doe)) + year_of doe / 399
unfolding year_of
year_end doe h = omega arith

year_le : (doe : ℕ) → suc doe ≤ 146097 → year_of doe ≤ 399
unfolding year_of
year_le doe h = omega arith

-- The first day of the month that stands `n` months after March of year 0.
unfoldable month_start : ℕ → ℕ
month_start n = 365 * (n / 12) + n / 12 / 4 - n / 12 / 100 + n / 12 / 400 + (153 * (n % 12) + 2) / 5

-- A month has at least 28 days.
month_start_step : (n : ℕ) → month_start n + 28 ≤ month_start (suc n)
unfolding month_start
month_start_step n = omega arith

month_start_mono : (n m : ℕ) → n ≤ m → month_start n ≤ month_start m
month_start_mono n zero h = let same : n ≡ zero = omega arith in omega (arith, ap month_start same)
month_start_mono n (suc m) h = elim (ℕ_discrete n (suc m)) [
  | yes same ↦ omega (arith, ap month_start same)
  | no other ↦ omega (arith, month_start_mono n m (omega arith), month_start_step m)
]

-- The month within a year that begins in March, and the number that the calendar gives it.
abbrev month_in_year : ℕ → ℕ
month_in_year doe = (5 * (doe - days_before (year_of doe)) + 2) / 153

civil_number :
    (era y mp : ℕ)
    → mp ≤ 11
    → (y + era * 400 + (if leb (if ltb mp 10 then mp + 3 else mp - 9) 2 then 1 else 0)) * 12
        + (if ltb mp 10 then mp + 3 else mp - 9)
        - 1
      ≡ (era * 400 + y) * 12 + mp + 2
civil_number era y mp h = ground arith

month_in_year_le : (doe : ℕ) → suc doe ≤ 146097 → month_in_year doe ≤ 11
month_in_year_le doe h =
    let low = year_start doe h in
    let high = year_end doe h in let top = year_le doe h in omega arith

month_number_parts :
    (date : DateOnly)
    → month_number date
      ≡ (date / 146097 * 400 + year_of (date % 146097)) * 12 + month_in_year (date % 146097) + 2
unfolding month_number civil year_of
month_number_parts date =
    civil_number (date / 146097) (year_of (date % 146097)) (month_in_year (date % 146097))
      (month_in_year_le (date % 146097) (omega arith))

month_start_parts :
    (era y mp : ℕ)
    → y ≤ 399
    → mp ≤ 11
    → month_start ((era * 400 + y) * 12 + mp) ≡ era * 146097 + days_before y + (153 * mp + 2) / 5
unfolding month_start
month_start_parts era y mp h k = omega arith

month_end_parts :
    (era y mp doe : ℕ)
    → y ≤ 399
    → mp ≤ 11
    → suc doe ≤ days_before (suc y) + y / 399
    → mp ≡ (5 * (doe - days_before y) + 2) / 153
    → suc (era * 146097 + doe) ≤ month_start (suc ((era * 400 + y) * 12 + mp))
unfolding month_start
month_end_parts era y mp doe h k l e = omega arith

-- A date stands in the month of its own number.
own_month :
    (date : DateOnly)
    → (month_start (month_number date - 2) ≤ date)
      × (suc date ≤ month_start (suc (month_number date - 2)))
own_month date =
    let era = date / 146097 in
    let doe = date % 146097 in
    let y = year_of doe in
    let mp = month_in_year doe in
    let top = year_le doe (omega arith) in
    let last = month_in_year_le doe (omega arith) in
    let number : month_number date - 2 ≡ (era * 400 + y) * 12 + mp =
      omega (arith, month_number_parts date) in
    let low : month_start ((era * 400 + y) * 12 + mp) ≤ date =
      omega (arith, month_start_parts era y mp top last, year_start doe (omega arith)) in
    let high : suc date ≤ month_start (suc ((era * 400 + y) * 12 + mp)) =
      omega (arith, month_end_parts era y mp doe top last (year_end doe (omega arith)) refl) in
    rw number (low, high)

-- Months before a date's own have ended, and those after have not begun.
month_start_iff : (date : DateOnly) (n : ℕ) → (month_start n ≤ date) ↔ (n + 2 ≤ month_number date)
month_start_iff date n =
    let (low, high) = own_month date in
    let parts = month_number_parts date in
    (
      λ begun. elim (Bool-cases (leb (n + 2) (month_number date))) [
        | inl t ↦ ground arith
        | inr f ↦
            let late : suc (month_number date - 2) ≤ n = ground arith in
            absurd (omega (arith, month_start_mono _ n late))
      ],
      λ h. omega (arith, month_start_mono n (month_number date - 2) (omega arith)),
    )

first_of_month_iff :
    (date : DateOnly) (months : ℤ)
    → (first_of_month months ≤ℤ pos date) ↔ (months ≤ℤ pos (month_number date))
unfolding first_of_month month_start
first_of_month_iff date (pos x) =
    let parts = month_number_parts date in
    (
      λ h. omega (arith, (month_start_iff date (x - 2)).0 (omega arith)),
      λ h. omega (arith, (month_start_iff date (x - 2)).1 (omega arith)),
    )
first_of_month_iff date (negsuc x) = (λ h. omega arith, λ h. omega arith)

le_or_lt : (a b : ℤ) → (a ≤ℤ b) ⊎ (b +ℤ pos 1 ≤ℤ a)
le_or_lt a b = elim (Bool-cases (leb_ℤ a b)) [
  | inl t ↦ inl (ground arith)
  | inr f ↦ let part = +ℤ_parts b (pos 1) in inr (ground arith)
]

-- The two ends of a monthly period, against the number of a date's month.
in_bounds_iff :
    (date anchor : DateOnly) (period : ℤ) (n : ℕ)
    → ((period_bounds_of period anchor month n).start ≤ℤ pos date)
        × (pos date ≤ℤ (period_bounds_of period anchor month n).end)
      ↔ IsPeriodOf (pos (month_number date) -ℤ pos (month_number anchor)) n period
unfolding period_bounds_of
in_bounds_iff date anchor period n =
    let first : ℤ = pos (month_number anchor) +ℤ period *ℤ n in
    let begun = first_of_month_iff date first in
    let over = first_of_month_iff date (first +ℤ pos n) in
    (
      λ (start, end). elim (le_or_lt (first +ℤ pos n) (pos (month_number date))) [
        | inl late ↦ absurd (omega (int_laws, over.1 late))
        | inr early ↦ (omega (int_laws, begun.0 start), omega int_laws)
      ],
      λ (low, high). elim (le_or_lt (first_of_month (first +ℤ pos n)) (pos date)) [
        | inl late ↦ absurd (omega (int_laws, over.0 late))
        | inr early ↦ (begun.1 (omega int_laws), omega int_laws)
      ],
    )

index_iff :
    (date anchor : DateOnly) (n : ℕ) (period : ℤ)
    → (period_index_of date anchor month (suc n) ≡ period)
      ↔ ((period_bounds_of period anchor month (suc n)).start ≤ℤ pos date)
        × (pos date ≤ℤ (period_bounds_of period anchor month (suc n)).end)
unfolding period_index_of
index_iff date anchor n period =
    let z : ℤ = pos (month_number date) -ℤ pos (month_number anchor) in
    let own = floor_div-IsPeriodOf z n in
    let bounds = in_bounds_iff date anchor period (suc n) in
    (
      λ e. bounds.1 (rw (sym e) own),
      λ inside. IsPeriodOf-unique z (suc n) _ period own (bounds.0 inside),
    )

-- With a cadence of one or more months, the period that a date is given is the one period whose
-- first and last day enclose the date: the periods leave no gap and do not overlap, also before
-- the agreement's own start.
pub period_index_of_month :
    (date anchor : DateOnly) (interval : ℕ) (period : ℤ)
    → 1 ≤ interval
    → (period_index_of date anchor month interval ≡ period)
      ↔ ((period_bounds_of period anchor month interval).start ≤ℤ pos date)
        × (pos date ≤ℤ (period_bounds_of period anchor month interval).end)
period_index_of_month date anchor zero period h = absurd (omega arith)
period_index_of_month date anchor (suc n) period h = index_iff date anchor n period
