-- ===== src/Catalog/Preview/Scan/Legal.antt =====
-- catalog/schedule-preview.ts: what a candidate is, for every candidate of the scan.
use ultrakil_scheduling_syst.Prelude.{
  ◌-◌, ◌≤◌, ◌≡◌, refl, inl, inr, Bool, true, false, List, [], ◌∷◌, In, All, All-append, All-of_In,
  has, ltb, arith, Bool-cases, if◌then◌else◌,
}
use ultrakil_scheduling_syst.Prelude.Int.{ℤ}
use ultrakil_scheduling_syst.Domain.{DateOnly, weekday_eq}
use ultrakil_scheduling_syst.Catalog.Periods.{weekday_of, period_index_of}
use ultrakil_scheduling_syst.Catalog.Dates.{dates_between, In-dates_between}
use ultrakil_scheduling_syst.Catalog.Windows.{DayWindow}
use ultrakil_scheduling_syst.Catalog.Preview.{
  SchedulePreviewInput, Candidate, interval_of, effective_start, last_date,
}
use ultrakil_scheduling_syst.Catalog.Preview.Scan.{
  Scan, empty_scan, windows_on, candidates_in, scan_day, scan_step, scan_days, scanned,
}

module _ (input : SchedulePreviewInput) where
  abbrev pub own_period : DateOnly → ℤ
  own_period date = period_index_of date input.start_date input.frequency_unit (interval_of input)

  -- The window of the candidate is one that the day offers, and the visit fits it.
  abbrev pub IsWindowOf : Candidate → DayWindow → Type 0
  IsWindowOf candidate window =
      (candidate.window_start_minute ≡ window.start_minute)
      × (candidate.window_end_minute ≡ window.end_minute)

  pub record IsCandidate (candidate : Candidate) : Type 0 where
    pub in_range : (effective_start input ≤ candidate.date) × (candidate.date ≤ last_date input)
    pub of_weekday : candidate.weekday ≡ weekday_of candidate.date
    pub of_period : candidate.period ≡ own_period candidate.date
    pub of_rule : candidate.is_allowed_day ≡ has (weekday_of candidate.date) input.allowed_days
    pub in_window :
        (window : DayWindow) × In window (windows_on input (weekday_of candidate.date))
        × IsWindowOf candidate window
    pub long_enough :
        input.duration_minutes ≤ candidate.window_end_minute - candidate.window_start_minute

  module _ (date : DateOnly)
      (inside : (effective_start input ≤ date) × (date ≤ last_date input)) where
    candidates_in-IsCandidate :
        (windows : List DayWindow)
        → All (λ window. In window (windows_on input (weekday_of date))) windows
        → All IsCandidate (candidates_in input date windows)
    unfolding candidates_in
    candidates_in-IsCandidate [] h = tt
    candidates_in-IsCandidate (window ∷ windows) h =
        let rest = candidates_in-IsCandidate windows h.1 in
        elim (Bool-cases (ltb (window.end_minute - window.start_minute) input.duration_minutes)) [
          | inl t ↦ rw t rest
          | inr f ↦ rw f (
            record {
              in_range = inside;
              of_weekday = refl;
              of_period = refl;
              of_rule = refl;
              in_window = (window, h.0, (refl, refl));
              long_enough = ground arith;
            },
            rest,
          )
        ]

    guarded_scan :
        (b : Bool) (seen used : Scan)
        → All IsCandidate seen.candidates
        → All IsCandidate used.candidates
        → All IsCandidate (if b then seen else used).candidates
    guarded_scan true seen used h k = h
    guarded_scan false seen used h k = k

    scan_step-IsCandidate :
        (scan : Scan)
        → All IsCandidate scan.candidates
        → All IsCandidate (scan_step input scan date).candidates
    unfolding scan_step scan_day
    scan_step-IsCandidate scan h = guarded_scan _ _ _ h (
        All-append IsCandidate scan.candidates _ h (
          candidates_in-IsCandidate (windows_on input (weekday_of date))
            (All-of_In _ _ (λ window m. m))))

  scan_days-IsCandidate :
      (dates : List DateOnly) (scan : Scan)
      → All (λ date. (effective_start input ≤ date) × (date ≤ last_date input)) dates
      → All IsCandidate scan.candidates
      → All IsCandidate (scan_days input dates scan).candidates
  unfolding scan_days
  scan_days-IsCandidate [] scan inside h = h
  scan_days-IsCandidate (date ∷ dates) scan inside h =
      scan_days-IsCandidate dates (scan_step input scan date) inside.1
        (scan_step-IsCandidate date inside.0 scan h)

  pub scanned-IsCandidate : All IsCandidate (scanned input).candidates
  scanned-IsCandidate =
      let first : DateOnly = effective_start input in
      let last : DateOnly = last_date input in
      scan_days-IsCandidate (dates_between first last) empty_scan
        (All-of_In _ (dates_between first last) (λ date m. (In-dates_between first last date).0 m))
        tt
