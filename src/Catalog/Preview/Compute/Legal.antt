-- ===== src/Catalog/Preview/Compute/Legal.antt =====
-- catalog/schedule-preview.ts: why each visit of a preview stands where it does.
use ultrakil_scheduling_syst.Prelude.{
  ◌+◌, ◌≤◌, ◌≡◌, refl, sym, ap, ◌∙◌, ◌↔◌, ◌⊎◌, inl, inr, false, List, [], map, In, map-In, Any,
  Any-In, Any-of_In, has-In, In-has, nat_eq, pair_eq, arith, In-keys,
}
use ultrakil_scheduling_syst.Prelude.Int.{ℤ}
use ultrakil_scheduling_syst.Prelude.Sort.{In-sort_by}
use ultrakil_scheduling_syst.Domain.{DateOnly, Minute, booked, weekday_eq}
use ultrakil_scheduling_syst.Catalog.Periods.{weekday_of}
use ultrakil_scheduling_syst.Catalog.Windows.Narrowing.{
  Fits, IsFrom, IsUntil, effective_windows-Fits,
}
use ultrakil_scheduling_syst.Catalog.Windows.Open.{IsOpenFor, IsOpenFor-iff}
use ultrakil_scheduling_syst.Generation.Requirement.{PreviewAlternative}
use ultrakil_scheduling_syst.Catalog.Preview.{SchedulePreviewInput, PreviewVisit, Candidate}
use ultrakil_scheduling_syst.Catalog.Preview.Scan.{Bounds, windows_on}
use ultrakil_scheduling_syst.Catalog.Preview.Scan.Legal.{own_period, IsCandidate}
use ultrakil_scheduling_syst.Catalog.Preview.Scan.Groups.{booked_of, IsInRange, scanned-IsMet}
use ultrakil_scheduling_syst.Catalog.Preview.Choice.{Pick}
use ultrakil_scheduling_syst.Catalog.Preview.Turns.{PeriodPlan, is_blocked, booked_plan, to_visit}
use ultrakil_scheduling_syst.Catalog.Preview.Compute.{in_period_of, compute_schedule_preview}
use ultrakil_scheduling_syst.Catalog.Preview.Compute.Periods.{
  In-planned, Settled, by_bookings, left_out, by_frequency, plan_of-Settled,
}
use ultrakil_scheduling_syst.Catalog.Preview.Compute.Bookings.{IsBookedOn, In-booked_turns}
use ultrakil_scheduling_syst.Catalog.Preview.Compute.Origins.{
  IsAgreed, scan, IsPlaced, from_booking, from_pick, own, visits_pushed, visit_Origin,
  booked_of-IsAgreed,
}

module _ (input : SchedulePreviewInput) where
  pub record IsLegalVisit (visit : PreviewVisit) : Type 0 where
    pub in_range : IsInRange input visit.date
    pub of_weekday : visit.weekday ≡ weekday_of visit.date
    pub of_period : visit.period_index ≡ own_period input visit.date
    pub on_allowed_day : In (weekday_of visit.date) input.allowed_days
    pub not_held :
        ¬ Any
          (λ slot.
            (slot.date ≡ visit.date) × (slot.window_start_minute ≡ visit.window_start_minute))
          input.blocked_slots
    pub no_booking :
        (date : DateOnly) → IsAgreed input date → ¬ (own_period input date ≡ visit.period_index)
    pub long_enough : visit.window_start_minute + input.duration_minutes ≤ visit.window_end_minute
    pub in_hours :
        (start : Minute)
        → visit.window_start_minute ≤ start
        → start + input.duration_minutes ≤ visit.window_end_minute
        → IsOpenFor input.site_windows (weekday_of visit.date) start input.duration_minutes
          × IsFrom input.agreement_window_start_minute start
          × IsUntil input.agreement_window_end_minute (start + input.duration_minutes)

  not_held_by :
      (date : DateOnly) (minute : Minute)
      → is_blocked input date minute ≡ false
      → ¬ Any (λ slot. (slot.date ≡ date) × (slot.window_start_minute ≡ minute)) input.blocked_slots
  unfolding is_blocked
  not_held_by date minute f m =
      let (slot, n, (d, s)) = Any-In _ input.blocked_slots m in
      let held : In {A = DateOnly × Minute} (date, minute)
          (map (λ b. (b.date, b.window_start_minute)) input.blocked_slots) =
        rw (← d, ← s) (map-In (λ b. (b.date, b.window_start_minute)) input.blocked_slots slot n) in
      let t = In-has {A = DateOnly × Minute} (date, minute) _ held in absurd (cc)

  -- The hours in which a job fits the window of a candidate are hours of the site and of the
  -- agreement.
  windows_on-IsOpenFor :
      1 ≤ input.duration_minutes
      → (candidate : Candidate) → IsCandidate input candidate
      → (start : Minute) → candidate.window_start_minute ≤ start
      → start + input.duration_minutes ≤ candidate.window_end_minute
      → IsOpenFor input.site_windows (weekday_of candidate.date) start input.duration_minutes
        × IsFrom input.agreement_window_start_minute start
        × IsUntil input.agreement_window_end_minute (start + input.duration_minutes)
  unfolding windows_on
  windows_on-IsOpenFor work candidate h start low high =
      let (window, m, (s, e)) = h.in_window in
      let fits : Fits start input.duration_minutes window = omega arith in
      let (open_, from, until) =
        (effective_windows-Fits start input.duration_minutes work _ _ _).0
          (Any-of_In (Fits start input.duration_minutes) _ window m fits) in
      ((IsOpenFor-iff input.site_windows _ start _).0 open_, from, until)

  pick-IsLegalVisit :
      1 ≤ input.duration_minutes
      → (period : ℤ) (pick : Pick) (alternatives : List PreviewAlternative)
      → IsPlaced input period pick
      → booked_of (scan input) period ≡ []
      → IsLegalVisit (to_visit pick.candidate pick.placement alternatives)
  pick-IsLegalVisit work period pick alternatives h no_ = record {
    in_range = h.candidate.in_range;
    of_weekday = h.candidate.of_weekday;
    of_period = h.candidate.of_period;
    on_allowed_day = has-In _ input.allowed_days (sym h.candidate.of_rule ∙ h.allowed);
    not_held = not_held_by pick.candidate.date pick.candidate.window_start_minute h.free;
    no_booking = λ date agreed e.
        rw no_ at ((booked_of-IsAgreed input period date).1 (agreed, e ∙ h.of_period));
    long_enough =
        let (window, _, (s, t)) = h.candidate.in_window in omega (arith, h.candidate.long_enough);
    in_hours = windows_on-IsOpenFor work pick.candidate h.candidate;
  }

  -- For a visit that takes some time, each visit of the preview is booked on a date that was
  -- agreed and that the horizon holds, or it is legal: in the horizon, in its own period, in which
  -- nothing is agreed, on an allowed weekday, on no slot that a cancelled visit holds, and in a
  -- window that takes the job and lies within the site's hours and the agreement's.
  pub compute_schedule_preview-IsLegalVisit :
      1 ≤ input.duration_minutes
      → (visit : PreviewVisit) → In visit (compute_schedule_preview input).visits
      → (IsAgreed input visit.date × (visit.placement ≡ booked)) ⊎ IsLegalVisit visit
  compute_schedule_preview-IsLegalVisit work visit m =
      let (period, origin) = visit_Origin input visit m in
      elim origin [
        | from_booking date n (same, placed) index ↦
            inl (rw same ((booked_of-IsAgreed input period date).0 n).0, placed)
        | from_pick pick alternatives h no_ e ↦
            inr (rw (← e) (pick-IsLegalVisit work period pick alternatives h no_))
      ]

  -- The visits that are booked are exactly the agreed dates that the horizon holds: each has its
  -- visit, and no other date is called booked.
  pub compute_schedule_preview_booked :
      (date : DateOnly)
      → Any (IsBookedOn date) (compute_schedule_preview input).visits ↔ IsAgreed input date
  unfolding compute_schedule_preview booked_plan
  compute_schedule_preview_booked date = (
    λ m.
        let (visit, n, (on, placed)) = Any-In (IsBookedOn date) _ m in
        let (period, origin) = visit_Origin input visit n in
        elim origin [
          | from_booking day k (same, _) index ↦
              rw (sym on ∙ same) ((booked_of-IsAgreed input period day).0 k).0
          | from_pick pick alternatives h no_ e ↦
              absurd (h.not_booked (ap (λ v. v.placement) e ∙ placed))
        ],
    λ agreed.
        let period : ℤ = own_period input date in
        let (bounds, n) =
          In-keys (scan input).period_bounds period
            ((scanned-IsMet input period).1 (date, agreed.1, refl)) in
        let m : In date (booked_of (scan input) period) =
          (booked_of-IsAgreed input period date).1 (agreed, refl) in
        let (visit, k, on) =
          booked_in (period, bounds) _ (plan_of-Settled input (scan input) (period, bounds)) date
            m in
        Any-of_In (IsBookedOn date) _ visit
          (In-sort_by _ _ visit (
            (In-planned input (scan input) (λ plan. plan.visits) (visits_pushed input) visit).1
              ((period, bounds), n, k)))
          on,
  )
    where
      booked_in :
          (entry : ℤ × Bounds) (plan : PeriodPlan)
          → Settled input (scan input) entry plan
          → (date : DateOnly) → In date (booked_of (scan input) (entry.0))
          → (visit : PreviewVisit) × In visit plan.visits × IsBookedOn date visit
      booked_in entry plan (by_bookings some_) date m =
          let here : List Candidate = in_period_of input (scan input) (entry.0) in
          let (turn, n, on) =
            In-booked_turns input (entry.0) here (own input (entry.0))
              (booked_of (scan input) (entry.0)) date m in
          (turn.visit, map-In (λ t. t.visit) _ turn n, on)
      booked_in entry plan (left_out no_ clipped) date m = absurd (rw no_ at m)
      booked_in entry plan (by_frequency no_ whole) date m = absurd (rw no_ at m)
