-- ===== src/Catalog/Preview/Compute/Bookings.antt =====
-- catalog/schedule-preview.ts: the visits of a period with bookings are the booked dates.
use ultrakil_scheduling_syst.Prelude.{
  suc, ◌≡◌, refl, ap, inl, inr, Option, none, some, List, [], ◌∷◌, In, find-In, nat_eqb,
  nat_eqb_iff, length, Bool, true, false,
}
use ultrakil_scheduling_syst.Prelude.Int.{ℤ}
use ultrakil_scheduling_syst.Prelude.Sort.{In-of_In-sort_by}
use ultrakil_scheduling_syst.Domain.{DateOnly, booked}
use ultrakil_scheduling_syst.Catalog.Preview.{SchedulePreviewInput, PreviewVisit, Candidate}
use ultrakil_scheduling_syst.Catalog.Preview.Texts.{
  Fallback, booked_visit_without_a_usable_window, assumed_fallback, recorded_fallback, booked_visit,
  fallback_for,
}
use ultrakil_scheduling_syst.Catalog.Preview.Turns.{booked_turn, booked_turns, candidate_on}

-- A visit that somebody agreed, on its date.
abbrev pub IsBookedOn : DateOnly → PreviewVisit → Type 0
IsBookedOn date visit = (visit.date ≡ date) × (visit.placement ≡ booked)

module _ (input : SchedulePreviewInput) (period : ℤ) where
  fallback_for-IsBookedOn :
      (date : DateOnly) (best : Option _) (unconfirmed : Bool)
      → IsBookedOn date (fallback_for date period input best unconfirmed).visit
        × ((fallback_for date period input best unconfirmed).visit.period_index ≡ period)
  unfolding assumed_fallback recorded_fallback booked_visit
  fallback_for-IsBookedOn date none unconfirmed = ((refl, refl), refl)
  fallback_for-IsBookedOn date (some best) true = ((refl, refl), refl)
  fallback_for-IsBookedOn date (some best) false = ((refl, refl), refl)

  booked_turn-IsBookedOn :
      (in_period : List Candidate)
      → ((candidate : Candidate) → In candidate in_period → candidate.period ≡ period)
      → (date : DateOnly) (found : Option Candidate) → candidate_on in_period date ≡ found
      → IsBookedOn date (booked_turn input date period found).visit
        × ((booked_turn input date period found).visit.period_index ≡ period)
  unfolding candidate_on booked_visit_without_a_usable_window
  booked_turn-IsBookedOn in_period own date none e = fallback_for-IsBookedOn date _ _
  booked_turn-IsBookedOn in_period own date (some candidate) e =
      let (m, t) = find-In (λ c. nat_eqb c.date date) _ e in
      (
        ((nat_eqb_iff candidate.date date).0 t, refl),
        own candidate (In-of_In-sort_by _ in_period candidate m),
      )

  -- The bookings of a period, in their order, one visit each.
  pub booked_turns-IsBookedOn :
      (in_period : List Candidate)
      → ((candidate : Candidate) → In candidate in_period → candidate.period ≡ period)
      → (dates : List DateOnly) (turn : Fallback)
      → In turn (booked_turns input in_period period dates)
      → (date : DateOnly) × In date dates
        × IsBookedOn date turn.visit
        × (turn.visit.period_index ≡ period)
  unfolding booked_turns
  booked_turns-IsBookedOn in_period own [] turn m = absurd m
  booked_turns-IsBookedOn in_period own (date ∷ dates) turn (inl e) =
      let (on, index) = booked_turn-IsBookedOn in_period own date _ refl in
      (date, inl refl, rw (← e) on, rw (← e) index)
  booked_turns-IsBookedOn in_period own (date ∷ dates) turn (inr m) =
      let (d, n, on, index) = booked_turns-IsBookedOn in_period own dates turn m in
      (d, inr n, on, index)

  pub In-booked_turns :
      (in_period : List Candidate)
      → ((candidate : Candidate) → In candidate in_period → candidate.period ≡ period)
      → (dates : List DateOnly) (date : DateOnly) → In date dates
      → (turn : Fallback) × In turn (booked_turns input in_period period dates)
        × IsBookedOn date turn.visit
  unfolding booked_turns
  In-booked_turns in_period own [] date m = absurd m
  In-booked_turns in_period own (first ∷ dates) date (inl e) =
      (_, inl refl, rw (← e) (booked_turn-IsBookedOn in_period own first _ refl).0)
  In-booked_turns in_period own (first ∷ dates) date (inr m) =
      let (turn, n, on) = In-booked_turns in_period own dates date m in (turn, inr n, on)

  pub length-booked_turns :
      (in_period : List Candidate) (dates : List DateOnly)
      → length (booked_turns input in_period period dates) ≡ length dates
  unfolding booked_turns
  length-booked_turns in_period [] = refl
  length-booked_turns in_period (date ∷ dates) =
      ap (λ n. suc n) (length-booked_turns in_period dates)
