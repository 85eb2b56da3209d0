-- ===== src/Catalog/Preview/Compute/Origins.antt =====
-- catalog/schedule-preview.ts: where each visit of a preview comes from.
use ultrakil_scheduling_syst.Prelude.{
  ◌≡◌, refl, ◌↔◌, true, false, List, [], In, In-filter, In-map, All-In, nat_eq, pair_eq, arith,
}
use ultrakil_scheduling_syst.Prelude.Int.{ℤ}
use ultrakil_scheduling_syst.Prelude.Sort.{In-of_In-sort_by}
use ultrakil_scheduling_syst.Domain.{DateOnly, booked, weekday_eq}
use ultrakil_scheduling_syst.Generation.Requirement.{PreviewAlternative}
use ultrakil_scheduling_syst.Catalog.Preview.{SchedulePreviewInput, PreviewVisit, Candidate}
use ultrakil_scheduling_syst.Catalog.Preview.Scan.{Bounds, Scan, scanned}
use ultrakil_scheduling_syst.Catalog.Preview.Scan.Legal.{
  own_period, IsCandidate, scanned-IsCandidate,
}
use ultrakil_scheduling_syst.Catalog.Preview.Scan.Groups.{
  booked_of, IsInRange, In-booked_of, In-booked_in_range,
}
use ultrakil_scheduling_syst.Catalog.Preview.Choice.{Pick}
use ultrakil_scheduling_syst.Catalog.Preview.Choice.Picks.{choose_for_period-IsSelection}
use ultrakil_scheduling_syst.Catalog.Preview.Turns.{PeriodPlan, is_blocked, booked_plan, to_visit}
use ultrakil_scheduling_syst.Catalog.Preview.Compute.{
  allowed_in, placeable_in, picks_of, in_period_of, frequency_plan, compute_schedule_preview,
}
use ultrakil_scheduling_syst.Catalog.Preview.Compute.Periods.{
  IsPushed, In-planned, In-in_period_of, Settled, by_bookings, left_out, by_frequency,
  plan_of-Settled,
}
use ultrakil_scheduling_syst.Catalog.Preview.Compute.Bookings.{IsBookedOn, booked_turns-IsBookedOn}

module _ (input : SchedulePreviewInput) where
  -- A date that is agreed with the customer and that the horizon holds.
  abbrev pub IsAgreed : DateOnly → Type 0
  IsAgreed date = In date input.booked_dates × IsInRange input date

  abbrev pub scan : Scan
  scan = scanned input

  pub record IsPlaced (period : ℤ) (pick : Pick) : Type 0 where
    pub candidate : IsCandidate input pick.candidate
    pub of_period : pick.candidate.period ≡ period
    pub allowed : pick.candidate.is_allowed_day ≡ true
    pub free : is_blocked input pick.candidate.date pick.candidate.window_start_minute ≡ false
    pub not_booked : ¬ (pick.placement ≡ booked)

  picks_of-IsPlaced :
      (period : ℤ) (pick : Pick)
      → In pick (picks_of input (in_period_of input scan period))
      → IsPlaced period pick
  picks_of-IsPlaced period pick m =
      let here : List Candidate = in_period_of input scan period in
      let selected =
        choose_for_period-IsSelection (placeable_in input here) input.frequency_count
          input.anchor_days in
      let placed = All-In _ (picks_of input here) {a = pick} selected.placed m in
      let (in_allowed, unblocked) = In-filter _ (allowed_in here) {a = pick.candidate} placed in
      let (in_here, allowed) =
        In-filter (λ c. c.is_allowed_day) here {a = pick.candidate} in_allowed in
      let (scanned_, same) = In-in_period_of input scan period pick.candidate in_here in
      record {
        candidate = All-In (IsCandidate input) scan.candidates (scanned-IsCandidate input) scanned_;
        of_period = same;
        allowed = allowed;
        free = ground (arith, unblocked);
        not_booked = All-In _ (picks_of input here) {a = pick} selected.not_booked m;
      }

  abbrev pub visits_pushed : IsPushed (λ plan. plan.visits)
  visits_pushed = record { at_first = refl; at_turn = λ a b. refl }

  -- How a visit of the plan of a period came to be.
  pub data Origin (period : ℤ) (visit : PreviewVisit) : Type 0 where
    from_booking :
        (date : DateOnly)
        → In date (booked_of scan period)
        → IsBookedOn date visit
        → visit.period_index ≡ period
        → Origin period visit
    from_pick :
        (pick : Pick) (alternatives : List PreviewAlternative)
        → IsPlaced period pick
        → booked_of scan period ≡ []
        → to_visit pick.candidate pick.placement alternatives ≡ visit
        → Origin period visit

  pub own :
      (period : ℤ) (candidate : Candidate)
      → In candidate (in_period_of input scan period)
      → candidate.period ≡ period
  own period candidate m = (In-in_period_of input scan period candidate m).1

  pub Settled-Origin :
      (entry : ℤ × Bounds) (plan : PeriodPlan) (visit : PreviewVisit)
      → Settled input scan entry plan
      → In visit plan.visits
      → Origin (entry.0) visit
  unfolding booked_plan frequency_plan
  Settled-Origin entry plan visit (by_bookings some_) m =
      let here : List Candidate = in_period_of input scan (entry.0) in
      let (turn, n, e) = In-map (λ t. t.visit) _ visit m in
      let (date, k, on, index) =
        booked_turns-IsBookedOn input (entry.0) here (own (entry.0)) (booked_of scan (entry.0)) turn
          n in
      from_booking date k (rw (← e) on) (rw (← e) index)
  Settled-Origin entry plan visit (left_out no_ clipped) m = absurd m
  Settled-Origin entry plan visit (by_frequency no_ whole) m =
      let (pick, n, e) = In-map _ (picks_of input (in_period_of input scan (entry.0))) visit m in
      from_pick pick _ (picks_of-IsPlaced (entry.0) pick n) no_ e

  pub visit_Origin :
      (visit : PreviewVisit)
      → In visit (compute_schedule_preview input).visits
      → (period : ℤ) × Origin period visit
  unfolding compute_schedule_preview
  visit_Origin visit m =
      let (entry, n, k) =
        (In-planned input scan (λ plan. plan.visits) visits_pushed visit).0
          (In-of_In-sort_by _ _ visit m) in
      (entry.0, Settled-Origin entry _ visit (plan_of-Settled input scan entry) k)

  pub booked_of-IsAgreed :
      (period : ℤ) (date : DateOnly)
      → In date (booked_of scan period) ↔ IsAgreed date × (own_period input date ≡ period)
  booked_of-IsAgreed period date =
      let found = In-booked_of input period date in
      let agreed = In-booked_in_range input date in
      (λ m. let (n, _, e) = found.0 m in (agreed.0 n, e), λ (a, e). found.1 (agreed.1 a, a.1, e))
