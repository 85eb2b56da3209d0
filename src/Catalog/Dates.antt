-- ===== src/Catalog/Dates.antt =====
-- The days of a horizon, in order: the loops of catalog/schedule-preview.ts and of
-- scheduling/optimizer/candidate-slots.ts that step a cursor by one day.
use ultrakil_scheduling_syst.Prelude.{
  ℕ, zero, suc, ◌-◌, ◌≤◌, ◌↔◌, ◌+◌, inl, inr, List, [], ◌∷◌, In, arith, ℕ_discrete,
}
use ultrakil_scheduling_syst.Domain.{DateOnly}

-- The recursion is on the days that are left.
unfoldable pub days_from : DateOnly → ℕ → List DateOnly
days_from date zero = []
days_from date (suc left) = date ∷ days_from (suc date) left

unfoldable pub dates_between : DateOnly → DateOnly → List DateOnly
unfolding days_from
dates_between first last = days_from first (suc last - first)

In-days_from :
    (date : DateOnly) (left : ℕ) (d : DateOnly)
    → In d (days_from date left) ↔ (date ≤ d) × (suc d ≤ date + left)
unfolding days_from
In-days_from date zero d = (λ m. absurd m, λ (a, b). omega arith)
In-days_from date (suc left) d =
    let rest = In-days_from (suc date) left d in
    (
      λ m. elim m [ inl e ↦ omega arith | inr n ↦ omega (arith, (rest.0 n).0, (rest.0 n).1) ],
      λ (a, b). elim (ℕ_discrete date d) [ yes e ↦ inl e | no ne ↦ inr (rest.1 (omega arith)) ],
    )

-- Every day from the first to the last is there, and no other.
pub In-dates_between :
    (first last d : DateOnly) → In d (dates_between first last) ↔ (first ≤ d) × (d ≤ last)
unfolding dates_between
In-dates_between first last d =
    let inside = In-days_from first (suc last - first) d in
    (λ m. omega (arith, (inside.0 m).0, (inside.0 m).1), λ (a, b). inside.1 (omega arith))
