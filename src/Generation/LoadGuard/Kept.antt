-- ===== src/Generation/LoadGuard/Kept.antt =====
-- load-guard.ts: what becomes of each visit that the agreements asked for.
use ultrakil_scheduling_syst.Prelude.{
  ◌≡◌, refl, ap, inl, inr, true, In, nat_eq, nat_eqb, nat_eqb_iff, string_eq, pair_eq, arith,
  Bool-cases,
}
use ultrakil_scheduling_syst.Domain.{placement_eq, branch_eq}
use ultrakil_scheduling_syst.Generation.Requirement.{RequiredVisit, PreviewAlternative}
use ultrakil_scheduling_syst.Generation.LoadGuard.{CapacityByDay, Slot}
use ultrakil_scheduling_syst.Generation.LoadGuard.Spread.{
  Guard, is_booked, can_shed, moved_to, move_slot, shed,
}
use ultrakil_scheduling_syst.Generation.LoadGuard.Steps.{Step, moves, sheds}
use ultrakil_scheduling_syst.Generation.LoadGuard.Slots.{
  same_slot, put_other, put_here, take_off_other,
}
use ultrakil_scheduling_syst.Generation.LoadGuard.Reached.{HasDistinctSlots, Step-distinct}

-- The same work: only the day, the window and what goes with them may differ.
pub record SameWork (a b : RequiredVisit) : Type 0 where
  pub same_agreement : a.service_agreement_id ≡ b.service_agreement_id
  pub same_period : a.period_index ≡ b.period_index
  pub same_branch : a.branch_code ≡ b.branch_code
  pub same_duration : a.duration_minutes ≡ b.duration_minutes
  pub same_crew : a.required_crew_size ≡ b.required_crew_size
  pub same_skills : a.required_skill_codes ≡ b.required_skill_codes

pub SameWork-refl : (a : RequiredVisit) → SameWork a a
SameWork-refl a = record {
  same_agreement = refl;
  same_period = refl;
  same_branch = refl;
  same_duration = refl;
  same_crew = refl;
  same_skills = refl;
}

pub SameWork-moved_to :
    (a b : RequiredVisit) (target : PreviewAlternative)
    → SameWork a b
    → SameWork a (moved_to target b)
unfolding moved_to
SameWork-moved_to a b target h = record {
  same_agreement = h.same_agreement;
  same_period = h.same_period;
  same_branch = h.same_branch;
  same_duration = h.same_duration;
  same_crew = h.same_crew;
  same_skills = h.same_skills;
}

-- Where a visit that the agreements asked for has gone: it is never lost, a booked one is not
-- touched, and work that the calendar already holds is not shed.
module _ (capacity : CapacityByDay) where
  abbrev pub HoldsBooked : RequiredVisit → Guard → Type 0
  HoldsBooked visit guard =
      HasDistinctSlots guard
      × (slot : Slot) × In slot guard.slots
      × (is_booked slot ≡ true)
      × (slot.visit ≡ visit)

  abbrev pub HoldsExisting : RequiredVisit → Guard → Type 0
  HoldsExisting visit guard =
      HasDistinctSlots guard
      × (slot : Slot) × In slot guard.slots
      × (slot.is_existing ≡ true)
      × SameWork visit slot.visit

  pub Step-HoldsBooked :
      (visit : RequiredVisit) (guard last : Guard)
      → HoldsBooked visit guard
      → Step capacity guard last
      → HoldsBooked visit last
  unfolding move_slot shed can_shed
  Step-HoldsBooked visit guard last h (moves mover target m free option room) =
      let (d, slot, n, b, e) = h in
      let ne : ¬ (slot.index ≡ mover.index) = λ same.
        let one : slot ≡ mover = same_slot guard.slots slot mover d n m same in
        let c : is_booked slot ≡ is_booked mover = ap (λ s. is_booked s) one in cc in
      (
        Step-distinct capacity guard _ d (moves mover target m free option room),
        slot,
        put_other mover.index _ guard.slots slot n ne,
        b,
        e,
      )
  Step-HoldsBooked visit guard last h (sheds key gone m can) =
      let (d, slot, n, b, e) = h in
      let ne : ¬ (slot.index ≡ gone.index) = λ same.
        let one : slot ≡ gone = same_slot guard.slots slot gone d n m same in
        let c : is_booked slot ≡ is_booked gone = ap (λ s. is_booked s) one in
        ground (arith, can, b, c) in
      (
        Step-distinct capacity guard _ d (sheds key gone m can),
        slot,
        take_off_other gone.index guard.slots slot n ne,
        b,
        e,
      )

  pub Step-HoldsExisting :
      (visit : RequiredVisit) (guard last : Guard)
      → HoldsExisting visit guard
      → Step capacity guard last
      → HoldsExisting visit last
  unfolding move_slot shed can_shed
  Step-HoldsExisting visit guard last h (moves mover target m free option room) =
      let (d, slot, n, b, work) = h in
      let d' = Step-distinct capacity guard _ d (moves mover target m free option room) in
      elim (Bool-cases (nat_eqb slot.index mover.index)) [
        | inl t ↦
            let same : slot.index ≡ mover.index = (nat_eqb_iff slot.index mover.index).0 t in
            let one : slot ≡ mover = same_slot guard.slots slot mover d n m same in
            (
              d',
              record slot { visit = moved_to target mover.visit },
              put_here mover.index _ guard.slots slot n same,
              b,
              SameWork-moved_to visit mover.visit target (rw one at work),
            )
        | inr f ↦ (
          d',
          slot,
          put_other mover.index _ guard.slots slot n (λ e. ground (arith, f, e)),
          b,
          work,
        )
      ]
  Step-HoldsExisting visit guard last h (sheds key gone m can) =
      let (d, slot, n, b, work) = h in
      let ne : ¬ (slot.index ≡ gone.index) = λ same.
        let one : slot ≡ gone = same_slot guard.slots slot gone d n m same in
        let c : slot.is_existing ≡ gone.is_existing = ap (λ s. s.is_existing) one in
        ground (arith, can, b, c) in
      (
        Step-distinct capacity guard _ d (sheds key gone m can),
        slot,
        take_off_other gone.index guard.slots slot n ne,
        b,
        work,
      )
