-- ===== src/Generation/DayFeasibility/Peak.antt =====
-- apps/api/src/scheduling/visit-generation/day-feasibility.ts: the peak of the forced demand is a
-- lower bound on the work under way at one instant of any schedule.
use ultrakil_scheduling_syst.Prelude.{
  ℕ, ◌+◌, ◌≤◌, ◌≡◌, refl, ◌⊎◌, inl, inr, Bool, ◌&&◌, List, [], ◌∷◌, map, if◌then◌else◌, ltb, All,
  Bool-cases, arith,
}
use ultrakil_scheduling_syst.Prelude.Int.{
  ℤ, pos, ◌+ℤ◌, +ℤ_parts, ◌-ℤ◌, -ℤ_parts, ◌≤ℤ◌, ltb_ℤ, leb_ℤ,
}
use ultrakil_scheduling_syst.Generation.DayFeasibility.{
  DayVisitDemand, Span, forced_interval, with_span, forced_visits, total_at, peak_from,
  peak_forced_demand,
}

-- A visit with the minute at which it starts.
abbrev pub Placed : Type 0
Placed = DayVisitDemand × ℤ

abbrev pub visits_of : List Placed → List DayVisitDemand
visits_of placed = map (λ p. p.0) placed

-- The visit starts in its window and ends in it.
abbrev pub IsInWindow : Placed → Type 0
IsInWindow p =
    (pos p.0.window_start_minute ≤ℤ p.1)
    × (p.1 +ℤ pos p.0.duration_minutes ≤ℤ pos p.0.window_end_minute)

abbrev pub is_running_at : ℤ → Placed → Bool
is_running_at at p = leb_ℤ p.1 at && ltb_ℤ at (p.1 +ℤ pos p.0.duration_minutes)

module _ (weight : DayVisitDemand → ℕ) where
  -- The weight of the visits under way at an instant of a schedule.
  unfoldable pub load_at : List Placed → ℤ → ℕ
  load_at [] at = 0
  load_at (p ∷ placed) at = (if is_running_at at p then weight p.0 else 0) + load_at placed at

  -- Whatever start was chosen, a visit is under way throughout its forced interval.
  one_at :
      (p : Placed) (rest : List (DayVisitDemand × Span)) (at : ℤ)
      → IsInWindow p
      → total_at weight (with_span p.0 (forced_interval p.0) rest) at
        ≤ (if is_running_at at p then weight p.0 else 0) + total_at weight rest at
  unfolding forced_interval total_at
  one_at p rest at h =
      let parts = +ℤ_parts p.1 (pos p.0.duration_minutes) in
      let minus = -ℤ_parts (pos p.0.window_end_minute) (pos p.0.duration_minutes) in
      elim (Bool-cases (
        ltb_ℤ (pos p.0.window_end_minute -ℤ pos p.0.duration_minutes)
          (pos (p.0.window_start_minute + p.0.duration_minutes)))) [
            | inl t ↦ rw t (ground (arith, parts, minus))
            | inr f ↦ rw f (omega arith)
          ]

  total_at-le :
      (placed : List Placed) (at : ℤ)
      → All IsInWindow placed
      → total_at weight (forced_visits (visits_of placed)) at ≤ load_at placed at
  unfolding forced_visits load_at total_at
  total_at-le [] at h = omega arith
  total_at-le (p ∷ placed) at h =
      omega (arith, one_at p (forced_visits (visits_of placed)) at h.0, total_at-le placed at h.1)

  -- The loop ends with the peak that it began with, or with the total at the start of an entry.
  peak_from-total :
      (intervals : List (DayVisitDemand × Span)) (peak : ℕ) (entries : List (DayVisitDemand × Span))
      → (peak_from weight intervals peak entries ≡ peak)
        ⊎ ((at : ℤ) × (peak_from weight intervals peak entries ≡ total_at weight intervals at))
  unfolding peak_from
  peak_from-total intervals peak [] = inl refl
  peak_from-total intervals peak (entry ∷ entries) =
      let total : ℕ = total_at weight intervals entry.1.start in
      elim (Bool-cases (ltb peak total)) [
        | inl t ↦ rw t (elim (peak_from-total intervals total entries) [
          | inl e ↦ inr (entry.1.start, e)
          | inr later ↦ inr later
        ])
        | inr f ↦ rw f (peak_from-total intervals peak entries)
      ]

  -- In every schedule that keeps each visit in its window there is an instant at which the visits
  -- under way weigh at least the peak of the forced demand.
  pub peak_forced_demand-le :
      (placed : List Placed)
      → All IsInWindow placed
      → (at : ℤ) × (peak_forced_demand weight (visits_of placed) ≤ load_at placed at)
  unfolding peak_forced_demand
  peak_forced_demand-le placed h =
      let intervals = forced_visits (visits_of placed) in
      elim (peak_from-total intervals 0 intervals) [
        | inl e ↦ (pos 0, rw e (omega arith))
        | inr found ↦ let (at, e) = found in (at, rw e (total_at-le placed at h))
      ]
