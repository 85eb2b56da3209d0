-- ===== src/Generation/LoadGuard/Steps.antt =====
-- load-guard.ts: what the guard may do to the plan, as a relation between its states.
use ultrakil_scheduling_syst.Prelude.{
  ◌+◌, ◌≤◌, ◌≡◌, inl, Bool, true, false, some, List, [], ◌∷◌, In, In-filter, nat_eq, arith, String,
  pair_eq,
}
use ultrakil_scheduling_syst.Prelude.Sort.{In-of_In-sort_by}
use ultrakil_scheduling_syst.Domain.{DateOnly, branch_eq}
use ultrakil_scheduling_syst.Generation.Requirement.{RequiredVisit, PreviewAlternative}
use ultrakil_scheduling_syst.Generation.LoadGuard.{
  DayKey, CapacityByDay, capacity_of, minutes_of, amount, Slot,
}
use ultrakil_scheduling_syst.Generation.LoadGuard.Spread.{
  Guard, is_booked, can_shed, move_slot, shed, has_room, target_of, first_alternative,
}

module _ (capacity : CapacityByDay) where
  -- The day that the visit goes to can take it.
  abbrev pub HasRoom : RequiredVisit → PreviewAlternative → Guard → Type 0
  HasRoom visit target guard =
      amount (visit.branch_code, target.date) guard.load + minutes_of visit
      ≤ capacity_of capacity (visit.branch_code, target.date)

  pub data Step (guard : Guard) : Guard → Type 0 where
    moves :
        (slot : Slot) (target : PreviewAlternative)
        → In slot guard.slots
        → is_booked slot ≡ false
        → In target slot.visit.alternatives
        → HasRoom slot.visit target guard
        → Step guard (move_slot slot target guard)
    sheds :
        (key : DayKey) (slot : Slot)
        → In slot guard.slots
        → can_shed key slot ≡ true
        → Step guard (shed (capacity_of capacity key) slot guard)

  pub data Reaches (guard : Guard) : Guard → Type 0 where
    stays : Reaches guard guard
    after :
        {later : Guard} (last : Guard) → Reaches guard later → Step later last → Reaches guard last

  pub Step-Reaches : (guard last : Guard) → Step guard last → Reaches guard last
  Step-Reaches guard last step = after last stays step

  pub Reaches-trans :
      (first second third : Guard)
      → Reaches first second
      → Reaches second third
      → Reaches first third
  Reaches-trans first second third before stays = before
  Reaches-trans first second third before (after {later} last steps step) =
      after last (Reaches-trans first second later before steps) step

  -- An invariant of the steps holds of all that they reach.
  pub Reaches-invariant :
      (P : Guard → Type 0)
      → ((guard last : Guard) → P guard → Step guard last → P last)
      → (first last : Guard) → Reaches first last
      → P first
      → P last
  Reaches-invariant P kept first last stays h = h
  Reaches-invariant P kept first last (after {later} last_ steps step) h =
      kept later last_ (Reaches-invariant P kept first later steps h) step

  first_alternative-In :
      (alternatives : List PreviewAlternative) (target : PreviewAlternative)
      → first_alternative alternatives ≡ some target
      → In target alternatives
  first_alternative-In [] target e = absurd (cc)
  first_alternative-In (alternative ∷ alternatives) target e = inl (cc)

  pub target_of-HasRoom :
      (standing_by_agreement : List (String × List DateOnly)) (suits : PreviewAlternative → Bool)
      (visit : RequiredVisit) (guard : Guard) (target : PreviewAlternative)
      → target_of capacity standing_by_agreement suits visit guard ≡ some target
      → In target visit.alternatives × HasRoom visit target guard
  unfolding target_of has_room
  target_of-HasRoom standing_by_agreement suits visit guard target e =
      let (m, t) =
        In-filter _ visit.alternatives {a = target}
          (In-of_In-sort_by _ _ target (first_alternative-In _ target e)) in
      (m, ground (arith, t))
