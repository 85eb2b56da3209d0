-- ===== src/Generation/Anchors.antt =====
-- apps/api/src/scheduling/visit-generation/anchors.ts: the days of the month that an agreement is
-- usually served on. The month of a date, `slice(0, 7)`, is its number. A median is asked of a
-- sample that is not empty; of an empty one the source would have `undefined`, here 0.
use ultrakil_scheduling_syst.Prelude.{
  ℕ, zero, suc, ◌+◌, ◌/◌, ◌%◌, ◌-◌, Option, none, some, List, [], ◌∷◌, ◌++◌, map, length, null,
  get_elem?, get_or_else, lookup, insert, nat_eq, nat_eqb, ltb, leb, Bool, ◌||◌, if◌then◌else◌,
}
use ultrakil_scheduling_syst.Prelude.Sort.{sort_by}
use ultrakil_scheduling_syst.Domain.{DateOnly}
use ultrakil_scheduling_syst.Eligibility.Messages.{civil}
use ultrakil_scheduling_syst.Catalog.Periods.{month_number}
pub mod Usual
mod Examples

unfoldable pub day_of_month : DateOnly → ℕ
day_of_month date = (civil date).day

-- `.sort((a, b) => a - b)`
abbrev pub ascending : List ℕ → List ℕ
ascending = sort_by ltb

-- `Math.round(n / 2)` of a sum is half of it, a half rounded up.
unfoldable pub median : List ℕ → ℕ
median values =
    let sorted : List ℕ = ascending values in
    let middle : ℕ = length sorted / 2 in
    let upper : ℕ = get_or_else (get_elem? sorted middle) 0 in
    let lower : ℕ = get_or_else (get_elem? sorted (middle - 1)) 0 in
    if nat_eqb (length sorted % 2) 1 then upper else (lower + upper + 1) / 2

-- The days booked in each month, in the order of the bookings.
unfoldable pub group_by_month : List DateOnly → List (ℕ × List ℕ) → List (ℕ × List ℕ)
group_by_month [] by_month = by_month
group_by_month (date ∷ dates) by_month =
    let days : List ℕ = get_or_else (lookup (month_number date) by_month) [] in
    group_by_month dates (insert (month_number date) (days ++ day_of_month date ∷ []) by_month)

-- `[...byMonth.values()].map((days) => days.sort((a, b) => a - b))`
abbrev pub ranked_days : List (ℕ × List ℕ) → List (List ℕ)
ranked_days [] = []
ranked_days (entry ∷ entries) = ascending (entry.1) ∷ ranked_days entries

abbrev pub with_day : Option ℕ → List ℕ → List ℕ
with_day none sample = sample
with_day (some day) sample = day ∷ sample

-- The days of one rank, of the months that reach it.
unfoldable pub sample_at : ℕ → List (List ℕ) → List ℕ
sample_at rank [] = []
sample_at rank (days ∷ ranked) = with_day (get_elem? days rank) (sample_at rank ranked)

-- The loop over the ranks, with the number of ranks that are left.
unfoldable pub anchors_from : ℕ → ℕ → List (List ℕ) → List ℕ
anchors_from rank zero ranked = []
anchors_from rank (suc left) ranked =
    let rest : List ℕ = anchors_from (suc rank) left ranked in
    if null (sample_at rank ranked) then rest else median (sample_at rank ranked) ∷ rest

unfoldable pub anchor_days_from : List DateOnly → ℕ → List ℕ
anchor_days_from booked_dates visits_per_period =
    if null booked_dates || ltb visits_per_period 1
    then []
    else ascending (anchors_from 0 visits_per_period (ranked_days (group_by_month booked_dates [])))
