-- ===== src/Catalog/Preview/Compute/Counts.antt =====
-- catalog/schedule-preview.ts: the visits of a period, counted over the whole preview.
use ultrakil_scheduling_syst.Prelude.{
  ℕ, ◌≡◌, refl, sym, ap, ◌∙◌, inl, inr, List, [], ◌∷◌, In, All, All-In, All-of_In, All-map, keys,
  keys-In, length, count_of, count_of-append, count_of-all, count_of-none, ◌==◌, arith, Bool-cases,
}
use ultrakil_scheduling_syst.Prelude.Int.{ℤ, int_eq, ltb_ℤ}
use ultrakil_scheduling_syst.Prelude.Sort.{
  sort_by, IsDistinct, sort_by-IsDistinct, map-sort_by, In-sort_by, count_of-sort_by,
}
use ultrakil_scheduling_syst.Catalog.Preview.{SchedulePreviewInput, PreviewVisit}
use ultrakil_scheduling_syst.Catalog.Preview.Scan.{Bounds, Scan, scanned}
use ultrakil_scheduling_syst.Catalog.Preview.Scan.Groups.{keys-scanned}
use ultrakil_scheduling_syst.Catalog.Preview.Compute.{
  plan_of, plan_periods, periods_in_order, compute_schedule_preview,
}
use ultrakil_scheduling_syst.Catalog.Preview.Compute.Periods.{plan_of-Settled}
use ultrakil_scheduling_syst.Catalog.Preview.Compute.Origins.{
  from_booking, from_pick, Settled-Origin,
}

-- The visits that carry the index of a period.
abbrev pub visits_of : ℤ → List PreviewVisit → ℕ
visits_of period = count_of (λ visit. visit.period_index == period)

module _ (input : SchedulePreviewInput) where
  abbrev scan : Scan
  scan = scanned input

  plan_of-own :
      (entry : ℤ × Bounds)
      → All (λ visit. visit.period_index ≡ entry.0) (plan_of input scan entry).visits
  plan_of-own entry = All-of_In _ _ own
    where
      own :
          (visit : PreviewVisit)
          → In visit (plan_of input scan entry).visits
          → visit.period_index ≡ entry.0
      own visit m = elim (Settled-Origin input entry _ visit (plan_of-Settled input scan entry) m) [
        | from_booking date n on index ↦ index
        | from_pick pick alternatives h no_ e ↦ ap (λ v. v.period_index) (sym e) ∙ h.of_period
      ]

  visits_of-same :
      (entry : ℤ × Bounds)
      → visits_of (entry.0) (plan_of input scan entry).visits
        ≡ length (plan_of input scan entry).visits
  visits_of-same entry = count_of-all _ _ (
      All-map _ _ (λ visit e. (int_eq.beq_iff visit.period_index (entry.0)).1 e) _
        (plan_of-own entry))

  visits_of-other :
      (entry : ℤ × Bounds) (period : ℤ)
      → ¬ (entry.0 ≡ period)
      → visits_of period (plan_of input scan entry).visits ≡ 0
  visits_of-other entry period ne = count_of-none _ _ (
      All-map _ _
        (λ visit e. elim (Bool-cases (visit.period_index == period)) [
          | inl t ↦ absurd (ne (sym e ∙ (int_eq.beq_iff visit.period_index period).0 t))
          | inr f ↦ f
        ])
        _ (plan_of-own entry))

  visits_of-elsewhere :
      (period : ℤ) (entries : List (ℤ × Bounds))
      → All (λ k. ¬ (k ≡ period)) (keys entries)
      → visits_of period (plan_periods input scan entries).visits ≡ 0
  unfolding plan_periods
  visits_of-elsewhere period [] h = refl
  visits_of-elsewhere period (entry ∷ entries) h = omega (
    arith,
    count_of-append (λ visit. visit.period_index == period) (plan_of input scan entry).visits
        (plan_periods input scan entries).visits,
    visits_of-other entry period h.0,
    visits_of-elsewhere period entries h.1,
  )

  -- The visits of a period are those of its own turn.
  visits_of-plan_periods :
      (entry : ℤ × Bounds) (entries : List (ℤ × Bounds))
      → IsDistinct (keys entries)
      → In entry entries
      → visits_of (entry.0) (plan_periods input scan entries).visits
        ≡ length (plan_of input scan entry).visits
  unfolding plan_periods
  visits_of-plan_periods entry [] h m = absurd m
  visits_of-plan_periods entry (first ∷ entries) h (inl same) = rw (← same) (
      omega (
        arith,
        count_of-append (λ visit. visit.period_index == first.0) (plan_of input scan first).visits
            (plan_periods input scan entries).visits,
        visits_of-same first,
        visits_of-elsewhere (first.0) entries h.0,
      ))
  visits_of-plan_periods entry (first ∷ entries) h (inr m) =
      let ne : ¬ (first.0 ≡ entry.0) =
        λ e. All-In _ (keys entries) h.0 (keys-In entries entry m) (sym e) in
      omega (
        arith,
        count_of-append (λ visit. visit.period_index == entry.0) (plan_of input scan first).visits
            (plan_periods input scan entries).visits,
        visits_of-other first (entry.0) ne,
        visits_of-plan_periods entry entries h.1 m,
      )

  pub visits_of-computed :
      (entry : ℤ × Bounds)
      → In entry scan.period_bounds
      → visits_of (entry.0) (compute_schedule_preview input).visits
        ≡ length (plan_of input scan entry).visits
  unfolding compute_schedule_preview
  visits_of-computed entry m =
      let sorted : keys (periods_in_order scan) ≡ sort_by ltb_ℤ (keys scan.period_bounds) =
        map-sort_by (λ e. e.0) ltb_ℤ scan.period_bounds in
      count_of-sort_by _ _ _
      ∙ visits_of-plan_periods entry (periods_in_order scan)
          (rw sorted (sort_by-IsDistinct ltb_ℤ _ (keys-scanned input)))
          (In-sort_by _ scan.period_bounds entry m)
