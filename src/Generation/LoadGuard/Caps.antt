-- ===== src/Generation/LoadGuard/Caps.antt =====
-- load-guard.ts: what stands on a day in the end, against the cap of that day.
use ultrakil_scheduling_syst.Prelude.{
  ℕ, suc, ◌+◌, ◌≤◌, ◌≡◌, refl, ap, ◌∙◌, ◌⊎◌, inl, inr, true, false, Option, List, [], ◌∷◌, map, In,
  In-map, All, All-In, All-of_In, All-filter, Any, Any-In, Any-of_In, sum_of, has-In, nat_eq,
  string_eq, pair_eq, ltb, arith, Bool-cases, String,
}
use ultrakil_scheduling_syst.Domain.{DateOnly, BranchCode, booked, placement_eq, branch_eq}
use ultrakil_scheduling_syst.Generation.Requirement.{RequiredVisit, PreviewAlternative}
use ultrakil_scheduling_syst.Generation.LoadGuard.{
  DayKey, CapacityByDay, capacity_of, StandingVisit, Slot, day_key, amount, slots_from, overloaded,
}
use ultrakil_scheduling_syst.Generation.LoadGuard.Spread.{
  Guard, is_on, is_booked, can_shed, take_off, moved_to, move_slot, shed,
}
use ultrakil_scheduling_syst.Generation.LoadGuard.Feasible.{FeasibilityCheck}
use ultrakil_scheduling_syst.Generation.LoadGuard.Whole.{
  spread_over_days, counted, apply_daily_load_guard,
}
use ultrakil_scheduling_syst.Generation.LoadGuard.Exact.{minutes_at, minutes_of_day}
use ultrakil_scheduling_syst.Generation.LoadGuard.Steps.{Step, moves, sheds, Reaches-invariant}
use ultrakil_scheduling_syst.Generation.LoadGuard.Reached.{
  HasDistinctSlots, Step-distinct, Reaches-IsExact,
}
use ultrakil_scheduling_syst.Generation.LoadGuard.Counted.{
  standing_on, counted-IsExact, In-overloaded,
}
use ultrakil_scheduling_syst.Generation.LoadGuard.Kept.{SameWork, SameWork-refl, SameWork-moved_to}
use ultrakil_scheduling_syst.Generation.LoadGuard.Outcome.{
  first_board, start, final, counted-distinct, resolved-Reaches, guard-Reaches,
}
use ultrakil_scheduling_syst.Generation.LoadGuard.Slots.{put-All, same_slot}
use ultrakil_scheduling_syst.Generation.LoadGuard.Settled.{
  IsSettled, Reaches-IsSettled, relieve-IsSettled,
}

module _ (required : List RequiredVisit) (capacity : CapacityByDay) (standing : List StandingVisit)
    (is_feasible : Option FeasibilityCheck) (in_calendar : List (String × DateOnly)) where
  -- Work that stood in the calendar on its own date before the run.
  abbrev pub WasInCalendar : RequiredVisit → Type 0
  WasInCalendar visit =
      Any
        (λ asked.
          In {A = String × DateOnly} (asked.service_agreement_id, asked.visit_date) in_calendar
          × SameWork asked visit)
        required

  -- A slot that is marked as existing work is.
  abbrev IsMarked : Slot → Type 0
  IsMarked slot = slot.is_existing ≡ true → WasInCalendar slot.visit

  abbrev AreMarked : Guard → Type 0
  AreMarked guard = HasDistinctSlots guard × All IsMarked guard.slots

  Step-AreMarked :
      (guard last : Guard) → AreMarked guard → Step capacity guard last → AreMarked last
  unfolding move_slot shed take_off
  Step-AreMarked guard last h (moves mover target m free option room) = (
    Step-distinct capacity guard _ h.0 (moves mover target m free option room),
    put-All IsMarked mover.index (moved_to target mover.visit) guard.slots h.1 (λ slot n e t.
        let one : slot ≡ mover = same_slot guard.slots slot mover h.0 n m e in
        moved_on mover.visit target
          (rw (ap (λ s. s.visit) one) at (All-In IsMarked guard.slots h.1 n t))),
  )
    where
      moved_on :
          (visit : RequiredVisit) (target : PreviewAlternative)
          → WasInCalendar visit
          → WasInCalendar (moved_to target visit)
      moved_on visit target w =
          let (asked, n, (held, work)) = Any-In _ required w in
          Any-of_In _ required asked n (held, SameWork-moved_to asked visit target work)
  Step-AreMarked guard last h (sheds key gone m can) = (
    Step-distinct capacity guard _ h.0 (sheds key gone m can),
    All-filter IsMarked _ guard.slots h.1,
  )

  start-AreMarked : AreMarked (start required capacity standing is_feasible in_calendar)
  unfolding counted
  start-AreMarked = (
    counted-distinct required capacity standing is_feasible in_calendar,
    marked 0 required (λ visit m. m),
  )
    where
      marked :
          (index : ℕ) (visits : List RequiredVisit)
          → ((visit : RequiredVisit) → In visit visits → In visit required)
          → All IsMarked (slots_from index in_calendar visits)
      marked index [] inside = tt
      marked index (visit ∷ visits) inside = (
        λ t. Any-of_In _ required visit (inside visit (inl refl)) (
          has-In {A = String × DateOnly} (visit.service_agreement_id, visit.visit_date) in_calendar
              t,
          SameWork-refl visit,
        ),
        marked (suc index) visits (λ v m. inside v (inr m)),
      )

  module _ (key : DayKey) (some_ : 1 ≤ capacity_of capacity key) where
    start-IsSettled :
        IsSettled capacity key (start required capacity standing is_feasible in_calendar)
        ⊎ In key (
            overloaded capacity
              (first_board required capacity standing is_feasible in_calendar).load)
    unfolding counted
    start-IsSettled =
        let load = (first_board required capacity standing is_feasible in_calendar).load in
        elim (Bool-cases (ltb (capacity_of capacity key) (amount key load))) [
          | inl t ↦ inr (In-overloaded capacity key load (ground arith))
          | inr f ↦ inl (inl (ground arith))
        ]

    final-IsSettled :
        IsSettled capacity key (final required capacity standing is_feasible in_calendar)
    unfolding spread_over_days
    final-IsSettled =
        Reaches-IsSettled capacity key _ _
          (resolved-Reaches required capacity standing is_feasible in_calendar)
          (relieve-IsSettled capacity key _ _ _ some_
            (counted-distinct required capacity standing is_feasible in_calendar) start-IsSettled)

    sum_of-visits :
        (slots : List Slot)
        → sum_of (minutes_at key) (map (λ slot. slot.visit) slots) ≡ minutes_of_day key slots
    sum_of-visits [] = refl
    sum_of-visits (slot ∷ slots) = omega (arith, sum_of-visits slots)

    has_to_stand :
        (slot : Slot)
        → can_shed key slot ≡ false
        → IsMarked slot
        → day_key slot.visit ≡ key
        → (slot.visit.placement ≡ booked) ⊎ WasInCalendar slot.visit
    unfolding can_shed
    has_to_stand slot f marked on =
        let t : is_on key slot ≡ true =
          ((pair_eq {A = BranchCode} {B = ℕ}).beq_iff (day_key slot.visit) key).1 on in
        elim (Bool-cases (is_booked slot)) [
          | inl b ↦ inl ((placement_eq.beq_iff slot.visit.placement booked).0 b)
          | inr g ↦ inr (marked (ground (arith, f, t, g)))
        ]

    -- On a day that has a capacity, the visits of the result and the standing ones that the run
    -- does not plan again stay together within the cap, or each visit of the result on that day
    -- has to stand: it is booked, or the calendar held its work on its own date before the run.
    pub apply_daily_load_guard-cap :
        (sum_of
              (minutes_at key)
              (apply_daily_load_guard required capacity standing is_feasible in_calendar).required
            + standing_on required capacity standing in_calendar key
          ≤ capacity_of capacity key)
        ⊎ All
            (λ visit. day_key visit ≡ key → (visit.placement ≡ booked) ⊎ WasInCalendar visit)
            (apply_daily_load_guard required capacity standing is_feasible in_calendar).required
    unfolding apply_daily_load_guard
    apply_daily_load_guard-cap =
        let first = start required capacity standing is_feasible in_calendar in
        let last = final required capacity standing is_feasible in_calendar in
        let steps = guard-Reaches required capacity standing is_feasible in_calendar in
        let exact =
          (Reaches-IsExact capacity (standing_on required capacity standing in_calendar) first last
              steps (counted-IsExact required capacity standing in_calendar is_feasible)).exact
            key in
        let marked =
          (Reaches-invariant capacity AreMarked Step-AreMarked first last steps
            start-AreMarked).1 in
        elim final-IsSettled [
          | inl within ↦ inl (omega (arith, within, exact, sum_of-visits last.slots))
          | inr stand ↦ inr (
              All-of_In _ (map (λ s. s.visit) last.slots) (λ visit m on.
                let (slot, n, e) = In-map (λ s. s.visit) last.slots visit m in
                rw (← e) (
                  has_to_stand slot (All-In _ last.slots {a = slot} stand n)
                    (All-In IsMarked last.slots marked n) (ap day_key e ∙ on))))
        ]
