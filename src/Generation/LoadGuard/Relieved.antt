-- ===== src/Generation/LoadGuard/Relieved.antt =====
-- load-guard.ts: the sheds of a day, what they leave, and the pass over the days.
use ultrakil_scheduling_syst.Prelude.{
  ℕ, ◌≤◌, ◌≡◌, refl, sym, ◌∙◌, ◌⊎◌, inl, inr, true, false, ◌&&◌, Option, none, some, List, [], ◌∷◌,
  In, In-filter_intro, find-none, All, All-of_In, All-map, map-In, nat_eqb, filter, ltb, arith,
  Bool-cases, String,
}
use ultrakil_scheduling_syst.Prelude.Sort.{sort_by, In-sort_by}
use ultrakil_scheduling_syst.Domain.{DateOnly, placement_eq}
use ultrakil_scheduling_syst.Generation.LoadGuard.{DayKey, CapacityByDay, capacity_of, Slot}
use ultrakil_scheduling_syst.Generation.LoadGuard.Spread.{
  Guard, slot_at, is_booked, can_move, can_shed, moves_before, sheds_before, references, shed,
  is_overloaded, move_off, try_shed, shed_off, relieve_day, relieve,
}
use ultrakil_scheduling_syst.Generation.LoadGuard.Steps.{
  sheds, Reaches, stays, Step-Reaches, Reaches-trans,
}
use ultrakil_scheduling_syst.Generation.LoadGuard.Slots.{slot_at-In, In-take_off}
use ultrakil_scheduling_syst.Generation.LoadGuard.Reached.{
  HasDistinctSlots, AllAt, Reaches-distinct, filtered-AllAt, move_off-Reaches,
}

module _ (capacity : CapacityByDay) (standing_by_agreement : List (String × List DateOnly)) where
  module _ (key : DayKey) where
    shed-AllAt :
        (P : Slot → Type 0) (cap : ℕ) (slot : Slot) (guard : Guard) (refs : List ℕ)
        → AllAt P refs guard
        → AllAt P refs (shed cap slot guard)
    unfolding shed
    shed-AllAt P cap slot guard refs h =
        All-map _ _ (λ i k s m e. k s (In-take_off slot.index guard.slots s m).0 e) refs h

    try_shed-Reaches :
        (found : Option Slot) (guard : Guard) (refs : List ℕ)
        → ((slot : Slot) → found ≡ some slot → In slot guard.slots × (can_shed key slot ≡ true))
        → AllAt (λ s. can_shed key s ≡ true) refs guard
        → Reaches capacity guard (try_shed capacity standing_by_agreement key found guard)
          × AllAt
              (λ s. can_shed key s ≡ true)
              refs
              (try_shed capacity standing_by_agreement key found guard)
    unfolding try_shed
    try_shed-Reaches none guard refs known h = (stays, h)
    try_shed-Reaches (some slot) guard refs known h = (
      Step-Reaches capacity guard _ (sheds key slot (known slot refl).0 (known slot refl).1),
      shed-AllAt (λ s. can_shed key s ≡ true) (capacity_of capacity key) slot guard refs h,
    )

    shed_off-Reaches :
        (refs : List ℕ) (guard : Guard)
        → AllAt (λ s. can_shed key s ≡ true) refs guard
        → Reaches capacity guard (shed_off capacity standing_by_agreement key refs guard)
    unfolding shed_off
    shed_off-Reaches [] guard h = stays
    shed_off-Reaches (reference ∷ refs) guard h =
        elim (Bool-cases (is_overloaded capacity standing_by_agreement key guard)) [
          | inl t ↦
              let (step, kept) =
                try_shed-Reaches (slot_at reference guard.slots) guard refs
                  (λ slot e.
                    let (m, same) = slot_at-In reference guard.slots slot e in (m, h.0 slot m same))
                  h.1 in
              rw (shed_off, t)
                (Reaches-trans capacity guard _ _ step (shed_off-Reaches refs _ kept))
          | inr f ↦ rw (shed_off, f) stays
        ]

    try_shed-gone :
        (reference : ℕ) (found : Option Slot) (guard : Guard)
        → slot_at reference guard.slots ≡ found
        → (slot : Slot) → In slot (try_shed capacity standing_by_agreement key found guard).slots
        → In slot guard.slots × ¬ (slot.index ≡ reference)
    unfolding try_shed shed slot_at
    try_shed-gone reference none guard e slot m = (
      m,
      λ same. ground (arith, find-none (λ s. nat_eqb s.index reference) guard.slots e m, same),
    )
    try_shed-gone reference (some found) guard e slot m =
        let (n, other) = In-take_off found.index guard.slots slot m in
        (n, λ same. other (same ∙ sym (slot_at-In reference guard.slots found e).1))

    -- The sheds end within the cap, or have removed every visit that they were given.
    shed_off-gone :
        (refs : List ℕ) (guard : Guard) (slot : Slot)
        → In slot (shed_off capacity standing_by_agreement key refs guard).slots
        → In slot guard.slots
          × ((is_overloaded capacity standing_by_agreement key
                  (shed_off capacity standing_by_agreement key refs guard)
                ≡ false)
              ⊎ ¬ In slot.index refs)
    unfolding shed_off
    shed_off-gone [] guard slot m = (m, inr (λ x. x))
    shed_off-gone (reference ∷ refs) guard slot m =
        elim (Bool-cases (is_overloaded capacity standing_by_agreement key guard)) [
          | inl t ↦
              let (n, outcome) = shed_off-gone refs _ slot (rw (shed_off, t) at m) in
              let (k, other) = try_shed-gone reference _ guard refl slot n in
              (
                k,
                rw (shed_off, t)
                    (elim outcome [
                      | inl within ↦ inl within
                      | inr absent ↦ inr (λ x. elim x [ inl e ↦ other (sym e) | inr y ↦ absent y ])
                    ]),
              )
          | inr f ↦ (rw (shed_off, f) at m, rw (shed_off, f) (inl f))
        ]

    pub relieve_day-Reaches :
        (guard : Guard)
        → HasDistinctSlots guard
        → Reaches capacity guard (relieve_day capacity standing_by_agreement key guard)
    unfolding relieve_day can_move
    relieve_day-Reaches guard d =
        let movers : List ℕ =
          references (sort_by moves_before (filter (can_move key) guard.slots)) in
        let spread_out : Guard = move_off capacity standing_by_agreement key movers guard in
        let moved =
          move_off-Reaches capacity standing_by_agreement key movers guard
            (unbooked movers guard (filtered-AllAt moves_before (can_move key) guard d)) in
        let d' : HasDistinctSlots spread_out =
          (Reaches-distinct capacity guard spread_out moved d) in
        elim (Bool-cases (
          ltb 0 (capacity_of capacity key)
          && is_overloaded capacity standing_by_agreement key spread_out)) [
            | inl t ↦ rw t (
                Reaches-trans capacity guard spread_out _ moved (
                  shed_off-Reaches _ spread_out
                    (filtered-AllAt sheds_before (can_shed key) spread_out d')))
            | inr f ↦ rw f moved
          ]
      where
        unbooked :
            (refs : List ℕ) (g : Guard)
            → AllAt (λ s. can_move key s ≡ true) refs g
            → AllAt (λ s. is_booked s ≡ false) refs g
        unbooked refs g h = All-map _ _ (λ i k s m e. ground (arith, k s m e)) refs h

    -- A day that has a capacity ends within it, or with no visit left that may be shed.
    pub relieve_day-settles :
        (guard : Guard)
        → HasDistinctSlots guard
        → 1 ≤ capacity_of capacity key
        → (is_overloaded capacity standing_by_agreement key
              (relieve_day capacity standing_by_agreement key guard)
            ≡ false)
          ⊎ All
              (λ slot. can_shed key slot ≡ false)
              (relieve_day capacity standing_by_agreement key guard).slots
    unfolding relieve_day
    relieve_day-settles guard d some_ =
        let movers : List ℕ =
          references (sort_by moves_before (filter (can_move key) guard.slots)) in
        let spread_out : Guard = move_off capacity standing_by_agreement key movers guard in
        let ordered : List Slot = sort_by sheds_before (filter (can_shed key) spread_out.slots) in
        let left : Guard =
          shed_off capacity standing_by_agreement key (references ordered) spread_out in
        let open_ : ltb 0 (capacity_of capacity key) ≡ true = ground arith in
        elim (Bool-cases (is_overloaded capacity standing_by_agreement key spread_out)) [
          | inr f ↦ rw (open_, f) (inl f)
          | inl t ↦
              rw (open_, t)
                (elim (Bool-cases (is_overloaded capacity standing_by_agreement key left)) [
                  | inr g ↦ inl g
                  | inl u ↦ inr (
                      All-of_In _ left.slots (λ slot m.
                        let (n, outcome) = shed_off-gone (references ordered) spread_out slot m in
                        elim (Bool-cases (can_shed key slot)) [
                          | inr h ↦ h
                          | inl c ↦ absurd (elim outcome [
                            | inl within ↦ cc
                            | inr absent ↦ absent (
                                map-In (λ s. s.index) ordered slot
                                  (In-sort_by sheds_before _ slot
                                    (In-filter_intro (can_shed key) spread_out.slots n c)))
                          ])
                        ]))
                ])
        ]

  pub relieve-Reaches :
      (days : List DayKey) (guard : Guard)
      → HasDistinctSlots guard
      → Reaches capacity guard (relieve capacity standing_by_agreement days guard)
  unfolding relieve
  relieve-Reaches [] guard d = stays
  relieve-Reaches (key ∷ days) guard d =
      let here = relieve_day-Reaches key guard d in
      Reaches-trans capacity guard _ _ here
        (relieve-Reaches days _ (Reaches-distinct capacity guard _ here d))
