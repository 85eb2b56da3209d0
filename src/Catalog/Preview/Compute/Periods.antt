-- ===== src/Catalog/Preview/Compute/Periods.antt =====
-- catalog/schedule-preview.ts: what the loop over the periods gathers, period by period.
use ultrakil_scheduling_syst.Prelude.{
  ◌≡◌, refl, ◌↔◌, inl, inr, true, false, List, [], ◌∷◌, ◌++◌, In, In-filter, Any-append,
  Any-append_left, Any-append_right, null, lookup, lookup-group_onto, ◌==◌, Bool-cases,
}
use ultrakil_scheduling_syst.Prelude.Int.{ℤ, int_eq}
use ultrakil_scheduling_syst.Prelude.Sort.{In-sort_by, In-of_In-sort_by}
use ultrakil_scheduling_syst.Catalog.Preview.{SchedulePreviewInput, Candidate}
use ultrakil_scheduling_syst.Catalog.Preview.Scan.{Bounds, Scan}
use ultrakil_scheduling_syst.Catalog.Preview.Scan.Groups.{booked_of}
use ultrakil_scheduling_syst.Catalog.Preview.Turns.{
  PeriodPlan, no_plan, whole_period, clipped_by_the_horizon, booked_plan,
}
use ultrakil_scheduling_syst.Catalog.Preview.Compute.{
  joined, frequency_plan, plan_period, in_period_of, plan_of, plan_periods, periods_in_order,
}

-- A field that the turns of the loop push to.
pub record IsPushed {A : Type 0} (read : PeriodPlan → List A) : Type 0 where
  pub at_first : read no_plan ≡ []
  pub at_turn : (a b : PeriodPlan) → read (joined a b) ≡ read a ++ read b

module _ (input : SchedulePreviewInput) (scan : Scan) where
  In-plan_periods :
      {A : Type 0} (read : PeriodPlan → List A) (pushed : IsPushed read)
      (entries : List (ℤ × Bounds)) (x : A)
      → In x (read (plan_periods input scan entries))
        ↔ (entry : ℤ × Bounds) × In entry entries × In x (read (plan_of input scan entry))
  unfolding plan_periods
  In-plan_periods read pushed [] x = rw pushed.at_first (λ m. absurd m, λ (_, m, _). absurd m)
  In-plan_periods read pushed (entry ∷ entries) x =
      let rest = In-plan_periods read pushed entries x in
      let here = read (plan_of input scan entry) in
      rw (pushed.at_turn (plan_of input scan entry) (plan_periods input scan entries)) (
        λ m. elim (Any-append _ here _ m) [
          | inl n ↦ (entry, inl refl, n)
          | inr n ↦ let (e, k, o) = rest.0 n in (e, inr k, o)
        ],
        λ (e, k, o). elim k [
          | inl same ↦ Any-append_left _ here _ (rw same o)
          | inr n ↦ Any-append_right _ here _ (rest.1 (e, n, o))
        ],
      )

  -- What a field holds in the end comes from some period that the scan met.
  pub In-planned :
      {A : Type 0} (read : PeriodPlan → List A) (pushed : IsPushed read) (x : A)
      → In x (read (plan_periods input scan (periods_in_order scan)))
        ↔ (entry : ℤ × Bounds) × In entry scan.period_bounds
          × In x (read (plan_of input scan entry))
  In-planned read pushed x =
      let all = In-plan_periods read pushed (periods_in_order scan) x in
      (
        λ m.
            let (entry, n, o) = all.0 m in
            (entry, In-of_In-sort_by _ scan.period_bounds entry n, o),
        λ (entry, n, o). all.1 (entry, In-sort_by _ scan.period_bounds entry n, o),
      )

  -- The candidates of a period are those of the scan that carry its index.
  pub In-in_period_of :
      (period : ℤ) (candidate : Candidate)
      → In candidate (in_period_of input scan period)
      → In candidate scan.candidates × (candidate.period ≡ period)
  unfolding in_period_of lookup
  In-in_period_of period candidate m =
      let (n, t) =
        In-filter (λ c. c.period == period) scan.candidates
          (rw (lookup-group_onto (λ c. c.period) scan.candidates [] period) at m) in
      (n, (int_eq.beq_iff candidate.period period).0 t)

  -- The three ways in which a period is settled.
  pub data Settled (entry : ℤ × Bounds) : PeriodPlan → Type 0 where
    by_bookings :
        null (booked_of scan (entry.0)) ≡ false
        → Settled entry (
            booked_plan input
              (entry.0)
              (entry.1)
              (in_period_of input scan (entry.0))
              (booked_of scan (entry.0)))
    left_out :
        booked_of scan (entry.0) ≡ []
        → clipped_by_the_horizon input (whole_period input (entry.0)) ≡ true
        → Settled entry (record no_plan { skipped_periods = whole_period input (entry.0) ∷ [] })
    by_frequency :
        booked_of scan (entry.0) ≡ []
        → clipped_by_the_horizon input (whole_period input (entry.0)) ≡ false
        → Settled entry
            (frequency_plan input scan (entry.0) (entry.1) (in_period_of input scan (entry.0)))

  null-eq : {A : Type 0} (xs : List A) → null xs ≡ true → xs ≡ []
  null-eq [] e = refl
  null-eq (x ∷ xs) e = absurd (cc)

  pub plan_of-Settled : (entry : ℤ × Bounds) → Settled entry (plan_of input scan entry)
  unfolding plan_of plan_period
  plan_of-Settled entry = elim (Bool-cases (null (booked_of scan (entry.0)))) [
    | inl t ↦ elim (Bool-cases (clipped_by_the_horizon input (whole_period input (entry.0)))) [
      | inl u ↦ rw (t, u) (left_out (null-eq _ t) u)
      | inr f ↦ rw (t, f) (by_frequency (null-eq _ t) f)
    ]
    | inr f ↦ rw f (by_bookings f)
  ]
