-- ===== src/Generation/LoadGuard/Counted.antt =====
-- load-guard.ts: the load that the guard starts from.
use ultrakil_scheduling_syst.Prelude.{
  ℕ, suc, ◌+◌, ◌-◌, ◌≤◌, ◌≡◌, refl, ◌∙◌, inl, inr, Option, List, [], ◌∷◌, In, In-filter_intro,
  map-In, All, All-map, sum_of, lookup, lookup-In, insert, nat_eq, string_eq, pair_eq, ◌==◌, ltb,
  arith, Bool-cases, Option-cases, if◌then◌else◌, String,
}
use ultrakil_scheduling_syst.Prelude.Sort.{IsDistinct, In-sort_by}
use ultrakil_scheduling_syst.Domain.{DateOnly, branch_eq}
use ultrakil_scheduling_syst.Generation.Requirement.{RequiredVisit}
use ultrakil_scheduling_syst.Generation.LoadGuard.{
  DayKey, CapacityByDay, capacity_of, StandingVisit, Board, empty_board, minutes_of,
  standing_minutes_of, day_key, standing_key, amount, planned_on, count_visit, count_visits,
  count_standing, count_all_standing, slots_from, overloaded, date_first,
}
use ultrakil_scheduling_syst.Generation.LoadGuard.Spread.{references}
use ultrakil_scheduling_syst.Generation.LoadGuard.Exact.{
  minutes_at, minutes_of_day, amount-bump, IsExact,
}
use ultrakil_scheduling_syst.Generation.LoadGuard.Feasible.{FeasibilityCheck}
use ultrakil_scheduling_syst.Generation.LoadGuard.Whole.{counted}

-- The standing visits but for those that the run plans again on the same day.
abbrev pub left_standing : List ((String × DateOnly) × ℕ) → List StandingVisit → List StandingVisit
left_standing planned [] = []
left_standing planned (visit ∷ visits) =
    let pair : String × DateOnly = (visit.service_agreement_id, visit.visit_date) in
    let without = left_standing (insert pair (planned_on pair planned - 1) planned) visits in
    let with_it = visit ∷ left_standing planned visits in
    if ltb 0 (planned_on pair planned) then without else with_it

abbrev pub standing_minutes_on : DayKey → List StandingVisit → ℕ
standing_minutes_on key visits =
    sum_of (λ visit. if standing_key visit == key then standing_minutes_of visit else 0) visits

module _ (key : DayKey) where
  amount-count_visits :
      (visits : List RequiredVisit) (start : Board)
      → amount key (count_visits visits start).load
        ≡ amount key start.load + sum_of (minutes_at key) visits
  unfolding count_visits count_visit
  amount-count_visits [] start = omega arith
  amount-count_visits (visit ∷ visits) start =
      let later = amount-count_visits visits (count_visit visit start) in
      let here = amount-bump (day_key visit) key (minutes_of visit) start.load in
      elim (Bool-cases (day_key visit == key)) [
        | inl t ↦ rw t (omega (arith, later, rw t at here))
        | inr f ↦ rw f (omega (arith, later, rw f at here))
      ]

  count_standing_step :
      (visit : StandingVisit) (visits : List StandingVisit) (start : Board)
      → amount key (count_standing visit start).load
          + standing_minutes_on key (left_standing (count_standing visit start).planned visits)
        ≡ amount key start.load
          + standing_minutes_on key (left_standing start.planned (visit ∷ visits))
  unfolding count_standing
  count_standing_step visit visits start =
      let here = amount-bump (standing_key visit) key (standing_minutes_of visit) start.load in
      elim (Bool-cases
        (ltb 0 (planned_on (visit.service_agreement_id, visit.visit_date) start.planned))) [
          | inl t ↦ rw (count_standing, t) refl
          | inr f ↦ elim (Bool-cases (standing_key visit == key)) [
            | inl u ↦ rw (count_standing, f, u) (omega (arith, rw u at here))
            | inr g ↦ rw (count_standing, f, g) (omega (arith, rw g at here))
          ]
        ]

  amount-count_all_standing :
      (visits : List StandingVisit) (start : Board)
      → amount key (count_all_standing visits start).load
        ≡ amount key start.load + standing_minutes_on key (left_standing start.planned visits)
  unfolding count_all_standing
  amount-count_all_standing [] start = omega arith
  amount-count_all_standing (visit ∷ visits) start =
      amount-count_all_standing visits (count_standing visit start)
      ∙ count_standing_step visit visits start

  minutes_of_day-slots_from :
      (index : ℕ) (in_calendar : List (String × DateOnly)) (visits : List RequiredVisit)
      → minutes_of_day key (slots_from index in_calendar visits) ≡ sum_of (minutes_at key) visits
  unfolding slots_from
  minutes_of_day-slots_from index in_calendar [] = refl
  minutes_of_day-slots_from index in_calendar (visit ∷ visits) =
      omega (arith, minutes_of_day-slots_from (suc index) in_calendar visits)

references-slots_from :
    (index : ℕ) (in_calendar : List (String × DateOnly)) (visits : List RequiredVisit)
    → All (λ i. index ≤ i) (references (slots_from index in_calendar visits))
      × IsDistinct (references (slots_from index in_calendar visits))
unfolding slots_from
references-slots_from index in_calendar [] = (tt, tt)
references-slots_from index in_calendar (visit ∷ visits) =
    let (above, distinct) = references-slots_from (suc index) in_calendar visits in
    (
      (omega arith, All-map (λ i. suc index ≤ i) (λ i. index ≤ i) (λ i h. omega arith) _ above),
      (All-map (λ i. suc index ≤ i) (λ i. ¬ (i ≡ index)) (λ i h e. omega arith) _ above, distinct),
    )

-- A day over its cap is found.
pub In-overloaded :
    (capacity : CapacityByDay) (key : DayKey) (load : List (DayKey × ℕ))
    → suc (capacity_of capacity key) ≤ amount key load
    → In key (overloaded capacity load)
unfolding overloaded
In-overloaded capacity key load over = elim (Option-cases (lookup key load)) [
  | inl e ↦ absurd (let none_ : amount key load ≡ 0 = rw e refl in omega arith)
  | inr (minutes, e) ↦
      let found : amount key load ≡ minutes = rw e refl in
      In-sort_by date_first _ key (
        map-In (λ entry. entry.0) _ (key, minutes)
          (In-filter_intro _ load (lookup-In key load e) (ground arith)))
]

module _ (required : List RequiredVisit) (capacity : CapacityByDay) (standing : List StandingVisit)
    (in_calendar : List (String × DateOnly)) where
  abbrev pub standing_on : DayKey → ℕ
  standing_on key =
      standing_minutes_on key (left_standing (count_visits required empty_board).planned standing)

  pub counted-IsExact :
      (is_feasible : Option FeasibilityCheck)
      → IsExact standing_on (counted required capacity standing is_feasible in_calendar)
  unfolding counted lookup
  counted-IsExact is_feasible = record {
    distinct = (references-slots_from 0 in_calendar required).1;
    exact = λ key. omega (
      arith,
      amount-count_all_standing key standing (count_visits required empty_board),
      amount-count_visits key required empty_board,
      minutes_of_day-slots_from key 0 in_calendar required,
    );
  }
