-- ===== src/Generation/LoadGuard/Reached.antt =====
-- load-guard.ts: the loops of the guard take no other step, and what they leave on a day.
use ultrakil_scheduling_syst.Prelude.{
  ℕ, ◌≡◌, refl, sym, ◌∙◌, inl, inr, Bool, true, false, Option, none, some, List, [], ◌∷◌, In,
  In-filter, All, All-In, All-of_In, All-map, In-map, filter, Bool-cases, Option-cases, String,
}
use ultrakil_scheduling_syst.Prelude.Sort.{sort_by, IsDistinct, In-of_In-sort_by}
use ultrakil_scheduling_syst.Domain.{DateOnly, placement_eq, VisitPlacement-discrete}
use ultrakil_scheduling_syst.Generation.Requirement.{PreviewAlternative}
use ultrakil_scheduling_syst.Generation.LoadGuard.{DayKey, CapacityByDay, Slot}
use ultrakil_scheduling_syst.Generation.LoadGuard.Spread.{
  Guard, slot_at, is_booked, references, moved_to, move_slot, target_of, is_overloaded, try_move,
  move_off,
}
use ultrakil_scheduling_syst.Generation.LoadGuard.Exact.{
  IsExact, move_slot-IsExact, shed-IsExact, move_slot-IsDistinct, shed-IsDistinct,
}
use ultrakil_scheduling_syst.Generation.LoadGuard.Slots.{slot_at-In, put-All, same_slot}
use ultrakil_scheduling_syst.Generation.LoadGuard.Steps.{
  Step, moves, sheds, Reaches, stays, Step-Reaches, Reaches-trans, Reaches-invariant,
  target_of-HasRoom,
}

abbrev pub HasDistinctSlots : Guard → Type 0
HasDistinctSlots guard = IsDistinct (references guard.slots)

-- What each slot with one of the references is.
abbrev pub AllAt : (Slot → Type 0) → List ℕ → Guard → Type 0
AllAt P refs guard = All (λ i. (slot : Slot) → In slot guard.slots → slot.index ≡ i → P slot) refs

module _ (capacity : CapacityByDay) (rest : DayKey → ℕ) where
  pub Step-IsExact :
      (guard last : Guard) → IsExact rest guard → Step capacity guard last → IsExact rest last
  Step-IsExact guard last h (moves slot target m free option room) =
      move_slot-IsExact rest slot target guard m h
  Step-IsExact guard last h (sheds key slot m can) = shed-IsExact rest _ slot guard m h

  pub Reaches-IsExact :
      (first last : Guard) → Reaches capacity first last → IsExact rest first → IsExact rest last
  Reaches-IsExact = Reaches-invariant capacity (IsExact rest) Step-IsExact

-- The references stay distinct.
pub Step-distinct :
    (capacity : CapacityByDay) (guard last : Guard)
    → HasDistinctSlots guard
    → Step capacity guard last
    → HasDistinctSlots last
Step-distinct capacity guard last d (moves slot target m free option room) =
    move_slot-IsDistinct slot target guard d
Step-distinct capacity guard last d (sheds key slot m can) = shed-IsDistinct _ slot guard d

pub Reaches-distinct :
    (capacity : CapacityByDay) (first last : Guard)
    → Reaches capacity first last
    → HasDistinctSlots first
    → HasDistinctSlots last
Reaches-distinct capacity = Reaches-invariant capacity HasDistinctSlots (Step-distinct capacity)

-- A list of references that a filter gave, in any order.
pub filtered-AllAt :
    (before : Slot → Slot → Bool) (p : Slot → Bool) (guard : Guard)
    → HasDistinctSlots guard
    → AllAt (λ slot. p slot ≡ true) (references (sort_by before (filter p guard.slots))) guard
filtered-AllAt before p guard d =
    All-of_In _ (references (sort_by before (filter p guard.slots))) (λ i m slot n e.
      let (found, k, same) = In-map (λ s. s.index) (sort_by before (filter p guard.slots)) i m in
      let (o, t) = In-filter p guard.slots (In-of_In-sort_by before _ found k) in
      let one : found ≡ slot = same_slot guard.slots found slot d o n (same ∙ sym e) in
      rw (← one) t)

module _ (capacity : CapacityByDay) (standing_by_agreement : List (String × List DateOnly)) where
  module _ (key : DayKey) where
    move_slot-AllAt :
        (slot : Slot) (target : PreviewAlternative) (guard : Guard) (refs : List ℕ)
        → AllAt (λ s. is_booked s ≡ false) refs guard
        → AllAt (λ s. is_booked s ≡ false) refs (move_slot slot target guard)
    unfolding move_slot moved_to VisitPlacement-discrete
    move_slot-AllAt slot target guard refs h =
        All-map _ _
          (λ i k s m e.
            All-In (λ t. t.index ≡ i → is_booked t ≡ false) _ {a = s}
              (put-All (λ t. t.index ≡ i → is_booked t ≡ false) slot.index
                (moved_to target slot.visit) guard.slots
                (All-of_In _ guard.slots (λ t n e. k t n e)) (λ t n e o. refl))
              m e)
          refs h

    try_move-Reaches :
        (found : Option Slot) (guard : Guard) (refs : List ℕ)
        → ((slot : Slot) → found ≡ some slot → In slot guard.slots × (is_booked slot ≡ false))
        → AllAt (λ s. is_booked s ≡ false) refs guard
        → Reaches capacity guard (try_move capacity standing_by_agreement key found guard)
          × AllAt
              (λ s. is_booked s ≡ false)
              refs
              (try_move capacity standing_by_agreement key found guard)
    unfolding try_move
    try_move-Reaches none guard refs known h = (stays, h)
    try_move-Reaches (some slot) guard refs known h =
        elim (Option-cases
          (target_of capacity standing_by_agreement (λ a. true) slot.visit guard)) [
            | inl e ↦ rw (try_move, e) (stays, h)
            | inr (target, e) ↦
                let (option, room) =
                  target_of-HasRoom capacity standing_by_agreement (λ a. true) slot.visit guard
                    target e in
                rw (try_move, e)
                  (
                    Step-Reaches capacity guard _
                        (moves slot target (known slot refl).0 (known slot refl).1 option room),
                    move_slot-AllAt slot target guard refs h,
                  )
          ]

    pub move_off-Reaches :
        (refs : List ℕ) (guard : Guard)
        → AllAt (λ s. is_booked s ≡ false) refs guard
        → Reaches capacity guard (move_off capacity standing_by_agreement key refs guard)
    unfolding move_off
    move_off-Reaches [] guard h = stays
    move_off-Reaches (reference ∷ refs) guard h =
        elim (Bool-cases (is_overloaded capacity standing_by_agreement key guard)) [
          | inl t ↦
              let (step, kept) =
                try_move-Reaches (slot_at reference guard.slots) guard refs
                  (λ slot e.
                    let (m, same) = slot_at-In reference guard.slots slot e in (m, h.0 slot m same))
                  h.1 in
              rw (move_off, t)
                (Reaches-trans capacity guard _ _ step (move_off-Reaches refs _ kept))
          | inr f ↦ rw (move_off, f) stays
        ]
