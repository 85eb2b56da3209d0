-- ===== src/Generation/RunScope/Judged.antt =====
-- run-scope.ts: what a run may judge, in terms of the days of the calendar.
use ultrakil_scheduling_syst.Prelude.{
  ℕ, ◌≤◌, ◌<◌, ◌≡◌, refl, ◌↔◌, ◌⊎◌, inl, inr, Bool, true, false, ◌||◌, Option, none, some, List,
  String, In, has-In, In-has, lookup, string_eq, ltb, arith, Bool-cases, if◌then◌else◌,
}
use ultrakil_scheduling_syst.Prelude.Int.{ℤ, int_eq}
use ultrakil_scheduling_syst.Domain.{DateOnly}
use ultrakil_scheduling_syst.Catalog.Periods.{period_index_of, period_bounds_of}
use ultrakil_scheduling_syst.Catalog.Periods.Calendar.{IsWithin, period_index_of-IsWithin}
use ultrakil_scheduling_syst.Generation.RunScope.{
  AgreementPeriodShape, AgreementLifetime, ScopedVisit, Range, is_over, is_planned, judges_period,
  judges_life, this_runs_to_judge, left_standing_by,
}

abbrev pub IsOver : DateOnly → Option DateOnly → Type 0
IsOver date none = ⊥
IsOver date (some end) = end < date

-- The date lies between the first and the last day of a period that the run planned.
abbrev pub IsPlanned : DateOnly → AgreementPeriodShape → Option (List ℤ) → Type 0
IsPlanned date shape none = ⊥
IsPlanned date shape (some periods) =
    (period : ℤ) × In period periods
    × IsWithin (period_bounds_of period shape.anchor shape.frequency_unit shape.frequency_interval)
        date

-- Every cadence has a cycle of one or more units.
abbrev pub HasCycles : List (String × AgreementPeriodShape) → Type 0
HasCycles shapes =
    (id : String) (shape : AgreementPeriodShape)
    → lookup id shapes ≡ some shape
    → 1 ≤ shape.frequency_interval

module _ (shapes : List (String × AgreementPeriodShape)) (planned_periods : List (String × List ℤ))
    (lives : List (String × AgreementLifetime)) where
  abbrev pub IsInPlannedPeriod : ScopedVisit → Option AgreementPeriodShape → Type 0
  IsInPlannedPeriod visit none = ⊥
  IsInPlannedPeriod visit (some shape) =
      IsPlanned visit.visit_date shape (lookup visit.service_agreement_id planned_periods)

  abbrev pub IsDueIn : ScopedVisit → Option AgreementLifetime → Type 0
  IsDueIn visit none = ⊥
  IsDueIn visit (some life) =
      (visit.visit_date < life.start)
      ⊎ (IsOver visit.visit_date life.end
          ⊎ IsInPlannedPeriod visit (lookup visit.service_agreement_id shapes))

  abbrev pub IsToJudge : ScopedVisit → Range → Type 0
  IsToJudge visit range =
      (range.from ≤ visit.visit_date)
      × (visit.visit_date ≤ range.to)
      × IsDueIn visit (lookup visit.service_agreement_id lives)

-- A chain of returns and the conditions that its tests decide.
one_of_iff {ℓ κ μ} :
    (P : Type ℓ) (Q : Type κ) (R : Type μ) (a b c : Bool)
    → (a ≡ true) ↔ P
    → (b ≡ true) ↔ Q
    → (c ≡ true) ↔ R
    → ((if a then true else if b then true else c) ≡ true) ↔ (P ⊎ (Q ⊎ R))
one_of_iff P Q R true b c p q r = (λ _. inl (p.0 refl), λ _. refl)
one_of_iff P Q R false true c p q r = (λ _. inr (inl (q.0 refl)), λ _. refl)
one_of_iff P Q R false false true p q r = (λ _. inr (inr (r.0 refl)), λ _. refl)
one_of_iff P Q R false false false p q r = (λ e. cc, impossible)
  where
    impossible : P ⊎ (Q ⊎ R) → false ≡ true
    impossible (inl x) = p.1 x
    impossible (inr (inl y)) = q.1 y
    impossible (inr (inr z)) = r.1 z

ltb_iff : (a b : ℕ) → (ltb a b ≡ true) ↔ (a < b)
ltb_iff a b = ground arith

is_over_iff :
    (date : DateOnly) (end : Option DateOnly) → (is_over date end ≡ true) ↔ IsOver date end
is_over_iff date none = ground arith
is_over_iff date (some end) = ground arith

is_planned_iff :
    (date : DateOnly) (shape : AgreementPeriodShape) (periods : Option (List ℤ))
    → 1 ≤ shape.frequency_interval
    → (is_planned
          (period_index_of date shape.anchor shape.frequency_unit shape.frequency_interval)
          periods
        ≡ true)
      ↔ IsPlanned date shape periods
is_planned_iff date shape none h = (λ e. cc, λ m. absurd m)
is_planned_iff date shape (some periods) h =
    let u = shape.frequency_unit in
    let n = shape.frequency_interval in
    let own = period_index_of date shape.anchor u n in
    (
      λ e. (
        own,
        has-In own periods e,
        (period_index_of-IsWithin date shape.anchor u n own h).0 refl,
      ),
      λ (period, m, inside).
          rw ((period_index_of-IsWithin date shape.anchor u n period h).1 inside)
            (In-has period periods m),
    )

module _ (shapes : List (String × AgreementPeriodShape)) (planned_periods : List (String × List ℤ))
    (lives : List (String × AgreementLifetime)) (cycles : HasCycles shapes) where
  judges_period_iff :
      (visit : ScopedVisit) (shape : Option AgreementPeriodShape)
      → lookup visit.service_agreement_id shapes ≡ shape
      → (judges_period shapes planned_periods lives visit shape ≡ true)
        ↔ IsInPlannedPeriod shapes planned_periods lives visit shape
  unfolding judges_period
  judges_period_iff visit none e = (λ h. cc, λ m. absurd m)
  judges_period_iff visit (some shape) e =
      is_planned_iff visit.visit_date shape _ (cycles visit.service_agreement_id shape e)

  judges_life_iff :
      (visit : ScopedVisit) (life : Option AgreementLifetime)
      → (judges_life shapes planned_periods lives visit life ≡ true)
        ↔ IsDueIn shapes planned_periods lives visit life
  unfolding judges_life
  judges_life_iff visit none = (λ h. cc, λ m. absurd m)
  judges_life_iff visit (some life) =
      one_of_iff _ _ _ _ _ _ (ltb_iff visit.visit_date life.start)
        (is_over_iff visit.visit_date life.end) (judges_period_iff visit _ refl)

  this_runs_to_judge_iff :
      (visit : ScopedVisit) (range : Range)
      → (this_runs_to_judge shapes planned_periods lives visit range ≡ true)
        ↔ IsToJudge shapes planned_periods lives visit range
  unfolding this_runs_to_judge
  this_runs_to_judge_iff visit range =
      let due = judges_life_iff visit (lookup visit.service_agreement_id lives) in
      elim (Bool-cases (ltb visit.visit_date range.from || ltb range.to visit.visit_date)) [
        | inl out ↦ (
          λ e. let same : false ≡ true = rw (out, this_runs_to_judge) at e in absurd (cc),
          λ (low, high, _). absurd (outside low high out),
        )
        | inr in_range ↦
            let range_is = inside in_range in
            (
              λ e. (range_is.0, range_is.1, due.0 (rw (in_range, this_runs_to_judge) at e)),
              λ (_, _, m). rw (in_range, this_runs_to_judge) (due.1 m),
            )
      ]
    where
      outside :
          range.from ≤ visit.visit_date
          → visit.visit_date ≤ range.to
          → ¬ ((ltb visit.visit_date range.from || ltb range.to visit.visit_date) ≡ true)
      outside h k e = ground arith

      inside :
          (ltb visit.visit_date range.from || ltb range.to visit.visit_date) ≡ false
          → (range.from ≤ visit.visit_date) × (visit.visit_date ≤ range.to)
      inside e = ground arith

  -- Where every cadence has a cycle, a run may change a visit of the calendar (does not leave it
  -- standing) exactly when the visit is in scope and unprotected, its date is in the run's range,
  -- and its agreement has a lifetime that the date lies before or after, or a period that the run
  -- planned and whose first and last day enclose the date.
  pub left_standing_by-IsToJudge :
      (visit : ScopedVisit) (is_protected is_in_scope : Bool) (range : Range)
      → (left_standing_by shapes planned_periods lives visit is_protected is_in_scope range ≡ false)
        ↔ (is_in_scope ≡ true)
          × (is_protected ≡ false)
          × IsToJudge shapes planned_periods lives visit range
  unfolding left_standing_by
  left_standing_by-IsToJudge visit p false range = (λ e. cc, λ m. absurd (cc))
  left_standing_by-IsToJudge visit true true range = (λ e. cc, λ m. absurd (cc))
  left_standing_by-IsToJudge visit false true range =
      let judged = this_runs_to_judge_iff visit range in
      (λ e. (refl, refl, judged.0 (ground arith)), λ (_, _, m). rw (judged.1 m) refl)
