-- ===== src/Optimizer/CandidateSlots/Legal.antt =====
-- candidate-slots.ts: the starts that the slots offer, against the rules that make a start legal.
use ultrakil_scheduling_syst.Prelude.{
  ℕ, ◌+◌, ◌≤◌, ◌≡◌, ◌↔◌, inl, inr, Bool, true, false, Option, List, [], ◌∷◌, In, Any, Any-append,
  Any-append_left, Any-append_right, has, group_onto, lookup, has-In, In-has, null, ltb,
  if◌then◌else◌, arith, Bool-cases,
}
use ultrakil_scheduling_syst.Domain.{DateOnly, Minute, Weekday, weekday_eq}
use ultrakil_scheduling_syst.Catalog.Periods.{weekday_of, period_index_of}
use ultrakil_scheduling_syst.Catalog.Dates.{dates_between, In-dates_between}
use ultrakil_scheduling_syst.Catalog.Windows.{
  DayWindow, SiteWindow, effective_windows, recorded_windows,
}
use ultrakil_scheduling_syst.Catalog.Windows.Narrowing.{
  Fits, IsFrom, IsUntil, effective_windows-Fits,
}
use ultrakil_scheduling_syst.Catalog.Windows.Recorded.{recorded_windows_iff}
use ultrakil_scheduling_syst.Catalog.Windows.Open.{IsOpenFor}
use ultrakil_scheduling_syst.Optimizer.CandidateSlots.{
  CandidateSlot, SlotInput, interval_of, first_day, last_day, day_windows, slots_of, slots_on,
  slots_over, build_candidate_slots,
}
use ultrakil_scheduling_syst.Optimizer.CandidateSlots.Days.{in_period_iff, days_iff}

-- A slot on the date whose starts take in the minute.
abbrev pub Offers : DateOnly → Minute → CandidateSlot → Type 0
Offers date start slot =
    (slot.date ≡ date) × (slot.earliest_start_minute ≤ start) × (start ≤ slot.latest_start_minute)

pub record IsLegalStart (input : SlotInput) (date : DateOnly) (start : Minute) : Type 0 where
  pub in_horizon : (input.from ≤ date) × (date ≤ input.to)
  pub in_agreement : (input.agreement_start_date ≤ date) × IsUntil input.agreement_end_date date
  pub same_period :
      period_index_of date input.agreement_start_date input.frequency_unit (interval_of input)
      ≡ period_index_of input.visit_date input.agreement_start_date input.frequency_unit
          (interval_of input)
  pub on_allowed_day : In (weekday_of date) input.allowed_days
  pub in_hours : IsOpenFor input.site_windows (weekday_of date) start input.duration_minutes
  pub in_service_window :
      IsFrom input.agreement_start_minute start
      × IsUntil input.agreement_end_minute (start + input.duration_minutes)

null-Any : {A : Type 0} (P : A → Type 0) (xs : List A) → null xs ≡ true → ¬ Any P xs
null-Any P [] e m = m
null-Any P (x ∷ xs) e m = cc

day_windows_iff :
    (sites : List SiteWindow) (weekday : Weekday) (start : Minute) (duration : ℕ)
    → Any (Fits start duration) (day_windows sites weekday) ↔ IsOpenFor sites weekday start duration
unfolding day_windows recorded_windows group_onto lookup
day_windows_iff [] weekday start duration = (λ m. elim m [ inl x ↦ x | inr y ↦ absurd y ], inl)
day_windows_iff (site ∷ sites) weekday start duration =
    recorded_day (recorded_windows (site ∷ sites) weekday)
      (recorded_windows_iff (Fits start duration) weekday (site ∷ sites))
  where
    recorded_day :
        {Q : Type 0} (recorded : List DayWindow)
        → Any (Fits start duration) recorded ↔ Q
        → Any (Fits start duration) (if null recorded then [] else recorded) ↔ Q
    recorded_day [] q = q
    recorded_day (window ∷ windows) q = q

guarded :
    {A : Type 0} (P : A → Type 0) (a b : Bool) (xs : List A)
    → Any P (if a then [] else if b then [] else xs)
    → Any P xs
guarded P true b xs m = absurd m
guarded P false true xs m = absurd m
guarded P false false xs m = m

module _ (input : SlotInput) (work : 1 ≤ input.duration_minutes) where
  slots_of_iff :
      (day date : DateOnly) (start : Minute) (windows : List DayWindow)
      → Any (Offers date start) (slots_of input day windows)
        ↔ (day ≡ date) × Any (Fits start input.duration_minutes) windows
  unfolding slots_of
  slots_of_iff day date start [] = (λ m. absurd m, λ m. absurd m.1)
  slots_of_iff day date start (window ∷ windows) =
      let rest = slots_of_iff day date start windows in
      elim (Bool-cases (ltb window.end_minute (window.start_minute + input.duration_minutes))) [
        | inl short ↦
            let none_fits : ¬ Fits start input.duration_minutes window =
              λ p. ground (arith, p.0, p.1) in
            (
              λ m. let (same, n) = rest.0 (rw short at m) in (same, inr n),
              λ (same, m).
                  rw short (rest.1 (same, elim m [ inl x ↦ absurd (none_fits x) | inr y ↦ y ])),
            )
        | inr long ↦ (
          λ m. elim (rw long at m) [
            | inl (same, low, high) ↦ (same, inl (low, ground arith))
            | inr n ↦ let (same, k) = rest.0 n in (same, inr k)
          ],
          λ (same, m). rw long (elim m [
            | inl (low, high) ↦ inl (same, low, omega arith)
            | inr n ↦ inr (rest.1 (same, n))
          ]),
        )
      ]

  abbrev IsServed : DateOnly → Minute → Type 0
  IsServed day start =
      In (weekday_of day) input.allowed_days
      × IsOpenFor input.site_windows (weekday_of day) start input.duration_minutes
      × IsFrom input.agreement_start_minute start
      × IsUntil input.agreement_end_minute (start + input.duration_minutes)

  slots_on_iff :
      (day date : DateOnly) (start : Minute)
      → Any (Offers date start) (slots_on input day) ↔ (day ≡ date) × IsServed day start
  unfolding slots_on
  slots_on_iff day date start =
      let weekday : Weekday = weekday_of day in
      let duration : ℕ = input.duration_minutes in
      let windows : List DayWindow = day_windows input.site_windows weekday in
      let s : Option Minute = input.agreement_start_minute in
      let e : Option Minute = input.agreement_end_minute in
      let offered = slots_of_iff day date start (effective_windows windows s e) in
      let left = effective_windows-Fits start duration work windows s e in
      let open_ = day_windows_iff input.site_windows weekday start duration in
      elim (Bool-cases (has weekday input.allowed_days)) [
        | inl t ↦ (
          λ m.
              let (same, n) = offered.0 (rw t at m) in
              let (fits, from, until) = left.0 n in
              (same, (has-In weekday input.allowed_days t, open_.0 fits, from, until)),
          λ (same, (_, fits, from, until)).
              rw t (offered.1 (same, left.1 (open_.1 fits, from, until))),
        )
        | inr f ↦ (
          λ m. absurd (rw f at m),
          λ (_, (m, _, _, _)). let t = In-has weekday input.allowed_days m in absurd (cc),
        )
      ]

  slots_over_iff :
      (days : List DateOnly) (date : DateOnly) (start : Minute)
      → Any (Offers date start) (slots_over input days) ↔ In date days × IsServed date start
  unfolding slots_over
  slots_over_iff [] date start = (λ m. absurd m, λ m. absurd m.0)
  slots_over_iff (day ∷ days) date start =
      let one = slots_on_iff day date start in
      let rest = slots_over_iff days date start in
      (
        λ m. elim (Any-append (Offers date start) (slots_on input day) (slots_over input days) m) [
          | inl x ↦ let (same, fits) = one.0 x in (inl same, rw (← same) fits)
          | inr y ↦ let (n, fits) = rest.0 y in (inr n, fits)
        ],
        λ (m, fits). elim m [
          | inl same ↦ Any-append_left _ (slots_on input day) _ (one.1 (same, rw same fits))
          | inr n ↦ Any-append_right _ (slots_on input day) _ (rest.1 (n, fits))
        ],
      )

  -- For a job that takes some time, a start is offered by some slot exactly when it is legal: its
  -- day lies in the horizon, in the agreement's life, in the same period as the visit and on an
  -- allowed weekday, and from the start to the end of the job the site is open and the agreement's
  -- own service window is kept.
  pub build_candidate_slots-IsLegalStart :
      (date : DateOnly) (start : Minute)
      → Any (Offers date start) (build_candidate_slots input) ↔ IsLegalStart input date start
  unfolding build_candidate_slots
  build_candidate_slots-IsLegalStart date start =
      let first : DateOnly = first_day input in
      let last : DateOnly = last_day input in
      let over = slots_over_iff (dates_between first last) date start in
      let inside = In-dates_between first last date in
      let days = days_iff input date in
      let period = in_period_iff input date in
      (
        λ m.
            let (n, (weekday, hours, from, until)) = over.0 (offered m) in
            let (horizon, agreement, enclosed) = days.0 (inside.0 n) in
            record {
              in_horizon = horizon;
              in_agreement = agreement;
              same_period = period.1 enclosed;
              on_allowed_day = weekday;
              in_hours = hours;
              in_service_window = (from, until);
            },
        λ legal.
            let (low, high) =
              days.1 (legal.in_horizon, legal.in_agreement, period.0 legal.same_period) in
            rw (some_day legal.on_allowed_day, nonempty low high)
              (over.1 (
                inside.1 (low, high),
                (
                  legal.on_allowed_day, legal.in_hours, legal.in_service_window.0,
                  legal.in_service_window.1,
                ),
              )),
      )
    where
      offered :
          Any (Offers date start) (build_candidate_slots input)
          → Any
              (Offers date start)
              (slots_over input (dates_between (first_day input) (last_day input)))
      offered m =
          guarded (Offers date start) (null input.allowed_days)
            (ltb (last_day input) (first_day input)) _ m

      some_day : In (weekday_of date) input.allowed_days → null input.allowed_days ≡ false
      some_day m = elim (Bool-cases (null input.allowed_days)) [
        | inl t ↦ absurd (null-Any _ input.allowed_days t m)
        | inr f ↦ f
      ]

      nonempty :
          first_day input ≤ date
          → date ≤ last_day input
          → ltb (last_day input) (first_day input) ≡ false
      nonempty a b = ground arith
