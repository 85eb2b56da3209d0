-- ===== src/Catalog/Preview/Compute/Accounts.antt =====
-- catalog/schedule-preview.ts: what a preview says about each period of the horizon.
use ultrakil_scheduling_syst.Prelude.{
  ℕ, suc, lookup-In, ◌≤◌, ◌≡◌, refl, ◌∙◌, ◌⊎◌, inl, inr, Bool, true, false, not, ◌&&◌, List, [],
  ◌∷◌, In, Any, Any-of_In, Any-In, length, length-map, ltb, arith, if◌then◌else◌, Bool-cases,
}
use ultrakil_scheduling_syst.Prelude.Int.{ℤ, pos, int_eq, ◌≤ℤ◌}
use ultrakil_scheduling_syst.Prelude.Sort.{In-sort_by}
use ultrakil_scheduling_syst.Domain.{DateOnly}
use ultrakil_scheduling_syst.Catalog.Preview.{
  SchedulePreviewInput, PreviewShortfall, PreviewPeriod, Candidate, effective_start, last_date,
}
use ultrakil_scheduling_syst.Catalog.Preview.Scan.{Bounds, Scan, scanned}
use ultrakil_scheduling_syst.Catalog.Preview.Scan.Legal.{own_period}
use ultrakil_scheduling_syst.Catalog.Preview.Scan.Groups.{booked_of, IsInRange}
use ultrakil_scheduling_syst.Catalog.Preview.Scan.Spans.{IsSpan, scanned-IsSpan}
use ultrakil_scheduling_syst.Catalog.Preview.Turns.{
  PeriodPlan, booked_turns, whole_period, is_clipped, clipped_by_the_horizon, booked_plan,
}
use ultrakil_scheduling_syst.Catalog.Preview.Compute.{
  frequency_plan, plan_of, compute_schedule_preview, in_period_of, by_index, SchedulePreview,
}
use ultrakil_scheduling_syst.Catalog.Preview.Compute.Periods.{
  IsPushed, In-planned, Settled, by_bookings, left_out, by_frequency, plan_of-Settled,
}
use ultrakil_scheduling_syst.Catalog.Preview.Compute.Bookings.{length-booked_turns}
use ultrakil_scheduling_syst.Catalog.Preview.Compute.Counts.{visits_of, visits_of-computed}

module _ (input : SchedulePreviewInput) where
  abbrev scan : Scan
  scan = scanned input

  -- The horizon holds the whole of the period.
  abbrev pub IsWhole : PreviewPeriod → Type 0
  IsWhole period =
      (pos (effective_start input) ≤ℤ period.start) × (period.end ≤ℤ pos (last_date input))

  -- From the first to the last day of the period that the horizon holds.
  abbrev pub IsAbout : ℤ → PreviewShortfall → Type 0
  IsAbout period s =
      IsSpan input (suc (last_date input)) period
        (record { start = s.period_start; end = s.period_end })

  -- As many visits as the frequency asks for, or a shortfall that names the period and both numbers.
  abbrev pub IsServed : ℤ → ℕ → List PreviewShortfall → Type 0
  IsServed period visits shortfalls =
      (input.frequency_count ≤ visits)
      ⊎ Any (λ s. IsAbout period s × (s.requested ≡ input.frequency_count) × (s.scheduled ≡ visits))
          shortfalls

  abbrev pub IsPlannedIn : SchedulePreview → ℤ → Type 0
  IsPlannedIn preview period =
      In (whole_period input period) preview.planned_periods
      × (IsWhole (whole_period input period)
          → IsServed period (visits_of period preview.visits) preview.shortfalls)

  abbrev pub IsLeftOutOf : SchedulePreview → ℤ → Type 0
  IsLeftOutOf preview period =
      In (whole_period input period) preview.skipped_periods
      × (visits_of period preview.visits ≡ 0)
      × (input.whole_periods_only ≡ true)
      × ¬ IsWhole (whole_period input period)

  not_clipped : (period : PreviewPeriod) → IsWhole period → is_clipped input period ≡ false
  unfolding is_clipped
  not_clipped period h = ground arith

  clipped :
      (period : PreviewPeriod)
      → clipped_by_the_horizon input period ≡ true
      → (input.whole_periods_only ≡ true) × ¬ IsWhole period
  unfolding clipped_by_the_horizon
  clipped period t = (ground arith, λ h. ground arith)

  reported :
      (period : ℤ) (n : ℕ) (clipped_ : Bool) (shortfall : PreviewShortfall)
      → IsAbout period shortfall
      → shortfall.requested ≡ input.frequency_count
      → shortfall.scheduled ≡ n
      → clipped_ ≡ false
      → IsServed period n
          (if ltb n input.frequency_count && not clipped_ then shortfall ∷ [] else [])
  reported period n clipped_ shortfall about r s f =
      elim (Bool-cases (ltb n input.frequency_count)) [
        | inl t ↦ rw (t, f) (inr (inl (about, r, s)))
        | inr g ↦ inl (ground arith)
      ]

  -- What the turn of a period adds.
  Settled-IsServed :
      (entry : ℤ × Bounds) (plan : PeriodPlan)
      → IsSpan input (suc (last_date input)) (entry.0) (entry.1)
      → Settled input scan entry plan
      → (In (whole_period input (entry.0)) plan.planned_periods
          × (IsWhole (whole_period input (entry.0))
              → IsServed (entry.0) (length plan.visits) plan.shortfalls))
        ⊎ (In (whole_period input (entry.0)) plan.skipped_periods
            × (length plan.visits ≡ 0)
            × (clipped_by_the_horizon input (whole_period input (entry.0)) ≡ true))
  unfolding booked_plan frequency_plan
  Settled-IsServed entry plan span (by_bookings some_) =
      let here : List Candidate = in_period_of input scan (entry.0) in
      let long =
        length-map (λ turn. turn.visit)
          (booked_turns input here (entry.0) (booked_of scan (entry.0)))
        ∙ length-booked_turns input (entry.0) here (booked_of scan (entry.0)) in
      inl (inl refl, λ h. rw long (reported _ _ _ _ span refl refl (not_clipped _ h)))
  Settled-IsServed entry plan span (left_out no_ out) = inr (inl refl, refl, out)
  Settled-IsServed entry plan span (by_frequency no_ whole) =
      inl (inl refl, λ h. rw (length-map _ _) (reported _ _ _ _ span refl refl (not_clipped _ h)))

  settled_in :
      (entry : ℤ × Bounds)
      → In entry scan.period_bounds
      → IsSpan input (suc (last_date input)) (entry.0) (entry.1)
      → IsPlannedIn (compute_schedule_preview input) (entry.0)
        ⊎ IsLeftOutOf (compute_schedule_preview input) (entry.0)
  unfolding compute_schedule_preview
  settled_in entry m span =
      let plan : PeriodPlan = plan_of input scan entry in
      let count = visits_of-computed input entry m in
      let whole : PreviewPeriod = whole_period input (entry.0) in
      elim (Settled-IsServed entry plan span (plan_of-Settled input scan entry)) [
        | inl (planned, served) ↦ inl (
          In-sort_by by_index _ whole (
              (In-planned input scan (λ p. p.planned_periods) planned_pushed whole).1
                (entry, m, planned)),
          λ h. rw count (elim (served h) [
            | inl enough ↦ inl enough
            | inr said ↦
                let (s, n, numbers) = Any-In _ plan.shortfalls said in
                inr (
                  Any-of_In _ _ s
                    ((In-planned input scan (λ p. p.shortfalls) shortfalls_pushed s).1
                      (entry, m, n))
                    numbers)
          ]),
        )
        | inr (skipped, none_, out) ↦ inr (
          In-sort_by by_index _ whole (
              (In-planned input scan (λ p. p.skipped_periods) skipped_pushed whole).1
                (entry, m, skipped)),
          count ∙ none_,
          (clipped whole out).0,
          (clipped whole out).1,
        )
      ]
    where
      planned_pushed : IsPushed (λ plan. plan.planned_periods)
      planned_pushed = record { at_first = refl; at_turn = λ a b. refl }

      shortfalls_pushed : IsPushed (λ plan. plan.shortfalls)
      shortfalls_pushed = record { at_first = refl; at_turn = λ a b. refl }

      skipped_pushed : IsPushed (λ plan. plan.skipped_periods)
      skipped_pushed = record { at_first = refl; at_turn = λ a b. refl }

  -- No period of the horizon is passed over in silence. The period of each day is planned, and
  -- where the horizon holds the whole of it, it has as many visits as the frequency asks for or a
  -- shortfall gives its first and last day, the number asked for and the number of its visits; or it
  -- is reported as left out, with no visit in it, and then only whole periods were asked for and
  -- this one is not.
  pub compute_schedule_preview_accounts :
      (date : DateOnly)
      → IsInRange input date
      → IsPlannedIn (compute_schedule_preview input) (own_period input date)
        ⊎ IsLeftOutOf (compute_schedule_preview input) (own_period input date)
  compute_schedule_preview_accounts date inside =
      let period : ℤ = own_period input date in
      let (bounds, found, span) = scanned-IsSpan input date inside.0 inside.1 in
      settled_in (period, bounds) (lookup-In period scan.period_bounds found) span
