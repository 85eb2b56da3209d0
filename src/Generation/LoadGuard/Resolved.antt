-- ===== src/Generation/LoadGuard/Resolved.antt =====
-- load-guard.ts: the pass on feasibility takes no other step either.
use ultrakil_scheduling_syst.Prelude.{
  ℕ, zero, suc, ◌≡◌, refl, inl, inr, false, Option, none, some, List, [], ◌∷◌, In, In-filter,
  filter, arith, Option-cases, String, length,
}
use ultrakil_scheduling_syst.Prelude.Sort.{In-of_In-sort_by}
use ultrakil_scheduling_syst.Domain.{DateOnly}
use ultrakil_scheduling_syst.Generation.LoadGuard.{DayKey, CapacityByDay, StandingVisit, Slot}
use ultrakil_scheduling_syst.Generation.LoadGuard.Spread.{
  Guard, is_booked, can_move, target_of, move_slot,
}
use ultrakil_scheduling_syst.Generation.LoadGuard.Feasible.{
  FeasibilityCheck, Resolved, suits, picked_before, first_slot, mover_of, demands_on, try_resolve,
  resolve_day, resolve,
}
use ultrakil_scheduling_syst.Generation.LoadGuard.Steps.{
  moves, Reaches, stays, Step-Reaches, Reaches-trans, target_of-HasRoom,
}

module _ (capacity : CapacityByDay) (standing_by_agreement : List (String × List DateOnly))
    (standing : List StandingVisit) (check : FeasibilityCheck) where
  first_slot-In : (slots : List Slot) (slot : Slot) → first_slot slots ≡ some slot → In slot slots
  first_slot-In [] slot e = absurd (cc)
  first_slot-In (first ∷ slots) slot e = inl (cc)

  mover_of-In :
      (key : DayKey) (guard : Guard) (slot : Slot)
      → mover_of capacity standing_by_agreement standing check key guard ≡ some slot
      → In slot guard.slots × (is_booked slot ≡ false)
  unfolding can_move
  mover_of-In key guard slot e =
      let (m, t) = In-filter (can_move key) guard.slots (
        In-of_In-sort_by picked_before (filter (can_move key) guard.slots) slot
          (first_slot-In _ slot e)) in
      (m, ground (arith, t))

  try_resolve-Step :
      (found : Option Slot) (guard last : Guard)
      → ((slot : Slot) → found ≡ some slot → In slot guard.slots × (is_booked slot ≡ false))
      → try_resolve capacity standing_by_agreement standing check found guard ≡ some last
      → Reaches capacity guard last
  unfolding try_resolve
  try_resolve-Step none guard last known e = absurd (cc)
  try_resolve-Step (some slot) guard last known e =
      let right = suits capacity standing_by_agreement standing check slot.visit guard in
      elim (Option-cases (target_of capacity standing_by_agreement right slot.visit guard)) [
        | inl f ↦ absurd (let g = rw (try_resolve, f) at e in cc)
        | inr (target, f) ↦
            let (option, room) =
              target_of-HasRoom capacity standing_by_agreement right slot.visit guard target f in
            let same : some (move_slot slot target guard) ≡ some last = rw (try_resolve, f) at e in
            let one : move_slot slot target guard ≡ last = cc in
            rw (← one) (
              Step-Reaches capacity guard _
                (moves slot target (known slot refl).0 (known slot refl).1 option room))
      ]

  resolve_day-Reaches :
      (key : DayKey) (left : ℕ) (state : Resolved)
      → Reaches capacity state.guard
          (resolve_day capacity standing_by_agreement standing check key left state).guard
  unfolding resolve_day
  resolve_day-Reaches key zero state = stays
  resolve_day-Reaches key (suc left) state =
      let mover = mover_of capacity standing_by_agreement standing check key state.guard in
      let tried = try_resolve capacity standing_by_agreement standing check mover state.guard in
      elim (Option-cases (
        check (key.0) (key.1)
          (demands_on capacity standing_by_agreement standing check key state.guard.slots))) [
            | inl e ↦ rw (resolve_day, e) stays
            | inr (verdict, e) ↦ elim (Option-cases tried) [
              | inl f ↦ rw (resolve_day, e, f) stays
              | inr (moved, f) ↦
                  rw (resolve_day, e, f)
                    (Reaches-trans capacity state.guard moved _
                      (try_resolve-Step mover state.guard moved
                        (λ slot g. mover_of-In key state.guard slot g) f)
                      (resolve_day-Reaches key left _))
            ]
          ]

  pub resolve-Reaches :
      (days : List DayKey) (state : Resolved)
      → Reaches capacity state.guard
          (resolve capacity standing_by_agreement standing check days state).guard
  unfolding resolve
  resolve-Reaches [] state = stays
  resolve-Reaches (key ∷ days) state =
      Reaches-trans capacity state.guard _ _
        (resolve_day-Reaches key (suc (length state.guard.slots)) state) (resolve-Reaches days _)
