-- ===== src/Generation/LoadGuard/Settled.antt =====
-- load-guard.ts: a day that is settled stays so, and each day over its cap is settled.
use ultrakil_scheduling_syst.Prelude.{
  ℕ, ◌≤◌, ◌≡◌, refl, ◌⊎◌, inl, inr, true, false, List, [], ◌∷◌, In, All, All-filter, nat_eq,
  string_eq, pair_eq, ◌==◌, arith, Bool-cases, String,
}
use ultrakil_scheduling_syst.Domain.{DateOnly, BranchCode, placement_eq, branch_eq}
use ultrakil_scheduling_syst.Generation.Requirement.{PreviewAlternative}
use ultrakil_scheduling_syst.Generation.LoadGuard.{
  DayKey, CapacityByDay, capacity_of, Slot, minutes_of, day_key, amount, reduce,
}
use ultrakil_scheduling_syst.Generation.LoadGuard.Spread.{
  Guard, can_shed, take_off, moved_to, move_slot, shed, relieve_day, relieve,
}
use ultrakil_scheduling_syst.Generation.LoadGuard.Exact.{amount-bump, amount-reduce}
use ultrakil_scheduling_syst.Generation.LoadGuard.Steps.{
  HasRoom, Step, moves, sheds, Reaches, Reaches-invariant,
}
use ultrakil_scheduling_syst.Generation.LoadGuard.Reached.{HasDistinctSlots, Reaches-distinct}
use ultrakil_scheduling_syst.Generation.LoadGuard.Slots.{put-All}
use ultrakil_scheduling_syst.Generation.LoadGuard.Relieved.{
  relieve_day-Reaches, relieve_day-settles,
}

pair_same : (a b : DayKey) → (a == b) ≡ true → a ≡ b
pair_same a b t = ((pair_eq {A = BranchCode} {B = ℕ}).beq_iff a b).0 t

module _ (capacity : CapacityByDay) (key : DayKey) where
  -- The day is within its cap, or every visit on it has to stand.
  abbrev pub IsSettled : Guard → Type 0
  IsSettled guard =
      (amount key guard.load ≤ capacity_of capacity key)
      ⊎ All (λ slot. can_shed key slot ≡ false) guard.slots

  move_slot-IsSettled :
      (slot : Slot) (target : PreviewAlternative) (guard : Guard)
      → HasRoom capacity slot.visit target guard
      → IsSettled guard
      → IsSettled (move_slot slot target guard)
  unfolding move_slot moved_to can_shed
  move_slot-IsSettled slot target guard room h =
      let from : DayKey = day_key slot.visit in
      let to : DayKey = (slot.visit.branch_code, target.date) in
      let n : ℕ = minutes_of slot.visit in
      let raised = amount-bump to key n (reduce from n guard.load) in
      let lowered = amount-reduce from key n guard.load in
      let less : amount key (reduce from n guard.load) ≤ amount key guard.load =
        elim (Bool-cases (from == key)) [
          | inl t ↦ omega (arith, rw t at lowered)
          | inr f ↦ omega (arith, rw f at lowered)
        ] in
      elim (Bool-cases (to == key)) [
        | inl u ↦ inl (omega (arith, rw u at raised, less, rw (pair_same to key u) at room))
        | inr g ↦ elim h [
          | inl within ↦ inl (omega (arith, rw g at raised, less, within))
          | inr stand ↦ inr (
              put-All (λ s. can_shed key s ≡ false) slot.index (moved_to target slot.visit)
                guard.slots stand (λ s m e. rw g refl))
        ]
      ]

  shed-IsSettled :
      (cap : ℕ) (slot : Slot) (guard : Guard) → IsSettled guard → IsSettled (shed cap slot guard)
  unfolding shed take_off
  shed-IsSettled cap slot guard h =
      let lowered = amount-reduce (day_key slot.visit) key (minutes_of slot.visit) guard.load in
      elim h [
        | inl within ↦ inl (elim (Bool-cases (day_key slot.visit == key)) [
          | inl t ↦ omega (arith, rw t at lowered, within)
          | inr f ↦ omega (arith, rw f at lowered, within)
        ])
        | inr stand ↦ inr (All-filter (λ s. can_shed key s ≡ false) _ guard.slots stand)
      ]

  Step-IsSettled :
      (guard last : Guard) → IsSettled guard → Step capacity guard last → IsSettled last
  Step-IsSettled guard last h (moves slot target m free option room) =
      move_slot-IsSettled slot target guard room h
  Step-IsSettled guard last h (sheds day slot m can) = shed-IsSettled _ slot guard h

  pub Reaches-IsSettled :
      (first last : Guard) → Reaches capacity first last → IsSettled first → IsSettled last
  Reaches-IsSettled = Reaches-invariant capacity IsSettled Step-IsSettled

  pub relieve-IsSettled :
      (standing_by_agreement : List (String × List DateOnly)) (days : List DayKey) (guard : Guard)
      → 1 ≤ capacity_of capacity key
      → HasDistinctSlots guard
      → IsSettled guard ⊎ In key days
      → IsSettled (relieve capacity standing_by_agreement days guard)
  unfolding relieve
  relieve-IsSettled sba [] guard some_ d h = elim h [ inl settled ↦ settled | inr x ↦ absurd x ]
  relieve-IsSettled sba (day ∷ days) guard some_ d h =
      let here = relieve_day-Reaches capacity sba day guard d in
      let d' = Reaches-distinct capacity guard _ here d in
      relieve-IsSettled sba days (relieve_day capacity sba day guard) some_ d' (elim h [
        | inl settled ↦ inl (Reaches-IsSettled guard _ here settled)
        | inr (inr m) ↦ inr m
        | inr (inl e) ↦ inl (
            rw e (elim (relieve_day-settles capacity sba key guard d some_) [
              | inl f ↦ inl (ground (arith, f))
              | inr stand ↦ inr stand
            ]))
      ])
