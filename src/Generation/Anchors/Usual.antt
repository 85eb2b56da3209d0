-- ===== src/Generation/Anchors/Usual.antt =====
-- anchors.ts: where the anchors lie, and how many there are.
use ultrakil_scheduling_syst.Prelude.{
  ℕ, zero, suc, ◌/◌, ◌%◌, ◌-◌, ◌≤◌, ◌≡◌, inl, inr, some, List, [], ◌∷◌, length, null, All,
  All-append, get_elem?, get_or_else, lookup, insert, nat_eq, nat_eqb, ltb, arith, false, ◌||◌,
  Bool-cases, Option-cases,
}
use ultrakil_scheduling_syst.Prelude.Sort.{
  All-sort_by, length-sort_by, IsAscending, sort_by-IsAscending,
}
use ultrakil_scheduling_syst.Domain.{DateOnly}
use ultrakil_scheduling_syst.Generation.Anchors.{
  day_of_month, ascending, median, group_by_month, ranked_days, sample_at, anchors_from,
  anchor_days_from,
}

module _ (low high : ℕ) where
  abbrev pub IsBetween : ℕ → Type 0
  IsBetween day = (low ≤ day) × (day ≤ high)

  elem-IsBetween :
      (days : List ℕ) (i : ℕ)
      → suc i ≤ length days
      → All IsBetween days
      → IsBetween (get_or_else (get_elem? days i) 0)
  elem-IsBetween [] i l h = absurd (omega arith)
  elem-IsBetween (day ∷ days) zero l h = h.0
  elem-IsBetween (day ∷ days) (suc i) l h = elem-IsBetween days i (omega arith) h.1

  -- The middle of a sample that is not empty.
  median-IsBetween :
      (days : List ℕ) → 1 ≤ length days → All IsBetween days → IsBetween (median days)
  unfolding median
  median-IsBetween days l h =
      let size = length-sort_by ltb days in
      let inside = All-sort_by ltb IsBetween days h in
      let upper =
        elem-IsBetween (ascending days) (length (ascending days) / 2) (omega arith) inside in
      let lower =
        elem-IsBetween (ascending days) (length (ascending days) / 2 - 1) (omega arith) inside in
      elim (Bool-cases (nat_eqb (length (ascending days) % 2) 1)) [
        | inl t ↦ rw t upper
        | inr f ↦ rw f (omega (arith, upper, lower), omega (arith, upper, lower))
      ]

  abbrev AllDays : List (ℕ × List ℕ) → Type 0
  AllDays by_month = All (λ entry. All IsBetween (entry.1)) by_month

  lookup-IsBetween :
      (month : ℕ) (by_month : List (ℕ × List ℕ))
      → AllDays by_month
      → All IsBetween (get_or_else (lookup month by_month) [])
  unfolding lookup
  lookup-IsBetween month [] h = tt
  lookup-IsBetween month (entry ∷ entries) h = elim (Bool-cases (nat_eqb (entry.0) month)) [
    | inl t ↦ rw t (h.0)
    | inr f ↦ rw f (lookup-IsBetween month entries h.1)
  ]

  insert-IsBetween :
      (month : ℕ) (days : List ℕ) (by_month : List (ℕ × List ℕ))
      → All IsBetween days
      → AllDays by_month
      → AllDays (insert month days by_month)
  unfolding insert
  insert-IsBetween month days [] p h = (p, tt)
  insert-IsBetween month days (entry ∷ entries) p h = elim (Bool-cases (nat_eqb (entry.0) month)) [
    | inl t ↦ rw t (p, h.1)
    | inr f ↦ rw f (h.0, insert-IsBetween month days entries p h.1)
  ]

  group_by_month-IsBetween :
      (dates : List DateOnly) (by_month : List (ℕ × List ℕ))
      → All (λ date. IsBetween (day_of_month date)) dates
      → AllDays by_month
      → AllDays (group_by_month dates by_month)
  unfolding group_by_month
  group_by_month-IsBetween [] by_month p h = h
  group_by_month-IsBetween (date ∷ dates) by_month p h = group_by_month-IsBetween dates _ p.1 (
      insert-IsBetween _ _ by_month
        (All-append IsBetween _ _ (lookup-IsBetween _ by_month h) (p.0, tt)) h)

  ranked_days-IsBetween :
      (by_month : List (ℕ × List ℕ)) → AllDays by_month → All (All IsBetween) (ranked_days by_month)
  ranked_days-IsBetween [] h = tt
  ranked_days-IsBetween (entry ∷ entries) h =
      (All-sort_by ltb IsBetween (entry.1) h.0, ranked_days-IsBetween entries h.1)

  get_elem?-IsBetween :
      (days : List ℕ) (i : ℕ) {day : ℕ}
      → All IsBetween days
      → get_elem? days i ≡ some day
      → IsBetween day
  get_elem?-IsBetween [] i h e = absurd (cc)
  get_elem?-IsBetween (x ∷ days) zero {day} h e = let same : x ≡ day = cc in rw (← same) h.0
  get_elem?-IsBetween (x ∷ days) (suc i) h e = get_elem?-IsBetween days i h.1 e

  sample_at-IsBetween :
      (rank : ℕ) (ranked : List (List ℕ))
      → All (All IsBetween) ranked
      → All IsBetween (sample_at rank ranked)
  unfolding sample_at
  sample_at-IsBetween rank [] h = tt
  sample_at-IsBetween rank (days ∷ ranked) h = elim (Option-cases (get_elem? days rank)) [
    | inl out ↦ rw (out, sample_at) (sample_at-IsBetween rank ranked h.1)
    | inr (day, e) ↦
        rw (e, sample_at) (get_elem?-IsBetween days rank h.0 e, sample_at-IsBetween rank ranked h.1)
  ]

  null-length : (days : List ℕ) → null days ≡ false → 1 ≤ length days
  null-length [] e = absurd (cc)
  null-length (day ∷ days) e = omega arith

  anchors_from-IsBetween :
      (rank left : ℕ) (ranked : List (List ℕ))
      → All (All IsBetween) ranked
      → All IsBetween (anchors_from rank left ranked)
  unfolding anchors_from
  anchors_from-IsBetween rank zero ranked h = tt
  anchors_from-IsBetween rank (suc left) ranked h =
      elim (Bool-cases (null (sample_at rank ranked))) [
        | inl t ↦ rw t (anchors_from-IsBetween (suc rank) left ranked h)
        | inr f ↦ rw f (
          median-IsBetween (sample_at rank ranked) (null-length _ f)
              (sample_at-IsBetween rank ranked h),
          anchors_from-IsBetween (suc rank) left ranked h,
        )
      ]

length-anchors_from-le :
    (rank left : ℕ) (ranked : List (List ℕ)) → length (anchors_from rank left ranked) ≤ left
unfolding anchors_from
length-anchors_from-le rank zero ranked = omega arith
length-anchors_from-le rank (suc left) ranked =
    ground (arith, length-anchors_from-le (suc rank) left ranked)

-- The anchors ascend, there is at most one for each visit of a period, and where the booked days
-- of the month lie between two days the anchors do too.
pub anchor_days_from_lem :
    (low high : ℕ) (booked_dates : List DateOnly) (visits_per_period : ℕ)
    → All (λ date. IsBetween low high (day_of_month date)) booked_dates
    → IsAscending (anchor_days_from booked_dates visits_per_period)
      × (length (anchor_days_from booked_dates visits_per_period) ≤ visits_per_period)
      × All (IsBetween low high) (anchor_days_from booked_dates visits_per_period)
unfolding anchor_days_from
anchor_days_from_lem low high dates visits h =
    let ranked = ranked_days (group_by_month dates []) in
    let anchors = anchors_from 0 visits ranked in
    let inside =
      anchors_from-IsBetween low high 0 visits ranked
        (ranked_days-IsBetween low high _ (group_by_month-IsBetween low high dates [] h tt)) in
    elim (Bool-cases (null dates || ltb visits 1)) [
      | inl t ↦ rw t (tt, omega arith, tt)
      | inr f ↦ rw f (
        sort_by-IsAscending anchors,
        omega (arith, length-sort_by ltb anchors, length-anchors_from-le 0 visits ranked),
        All-sort_by ltb (IsBetween low high) anchors inside,
      )
    ]
