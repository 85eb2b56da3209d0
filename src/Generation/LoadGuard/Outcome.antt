-- ===== src/Generation/LoadGuard/Outcome.antt =====
-- load-guard.ts: what the result of the whole guard keeps of the visits that were asked for.
use ultrakil_scheduling_syst.Prelude.{
  ℕ, suc, ◌+◌, ◌≡◌, refl, ap, ◌∙◌, inl, inr, true, Option, none, some, List, [], ◌∷◌, map, In,
  map-In, Any, Any-of_In, sum_of, ◌⊎◌, In-has, nat_eq, string_eq, pair_eq, String, arith,
}
use ultrakil_scheduling_syst.Domain.{DateOnly, booked, placement_eq}
use ultrakil_scheduling_syst.Generation.Requirement.{RequiredVisit}
use ultrakil_scheduling_syst.Generation.LoadGuard.{
  CapacityByDay, StandingVisit, Board, Slot, slots_from, overloaded,
}
use ultrakil_scheduling_syst.Generation.LoadGuard.Spread.{Guard, is_booked}
use ultrakil_scheduling_syst.Generation.LoadGuard.Feasible.{FeasibilityCheck}
use ultrakil_scheduling_syst.Generation.LoadGuard.Whole.{
  LoadGuardResult, board, counted, spread_over_days, resolve_with, resolved, apply_daily_load_guard,
}
use ultrakil_scheduling_syst.Generation.LoadGuard.Steps.{
  Reaches, stays, Reaches-trans, Reaches-invariant,
}
use ultrakil_scheduling_syst.Generation.LoadGuard.Reached.{HasDistinctSlots}
use ultrakil_scheduling_syst.Generation.LoadGuard.Relieved.{relieve-Reaches}
use ultrakil_scheduling_syst.Generation.LoadGuard.Resolved.{resolve-Reaches}
use ultrakil_scheduling_syst.Generation.LoadGuard.Counted.{counted-IsExact}
use ultrakil_scheduling_syst.Generation.LoadGuard.Slots.{weight_of}
use ultrakil_scheduling_syst.Generation.LoadGuard.Fates.{
  Work, work_of, IsPlanFor, IsVersionOf-refl, HasFate, Step-HasFate, WeighsThe, Step-WeighsThe,
}
use ultrakil_scheduling_syst.Generation.LoadGuard.Kept.{
  SameWork, SameWork-refl, HoldsBooked, HoldsExisting, Step-HoldsBooked, Step-HoldsExisting,
}

-- The slot of a visit of the list.
pub slots_from-In :
    (index : ℕ) (in_calendar : List (String × DateOnly)) (visits : List RequiredVisit)
    (visit : RequiredVisit)
    → In visit visits
    → (slot : Slot) × In slot (slots_from index in_calendar visits)
      × (slot.visit ≡ visit)
      × (In {A = String × DateOnly} (visit.service_agreement_id, visit.visit_date) in_calendar
          → slot.is_existing ≡ true)
unfolding slots_from
slots_from-In index in_calendar [] visit m = absurd m
slots_from-In index in_calendar (first ∷ visits) visit (inl e) = (
  _,
  inl refl,
  e,
  λ n.
      In-has {A = String × DateOnly} (first.service_agreement_id, first.visit_date) in_calendar
        (rw e n),
)
slots_from-In index in_calendar (first ∷ visits) visit (inr m) =
    let (slot, n, e, held) = slots_from-In (suc index) in_calendar visits visit m in
    (slot, inr n, e, held)

weight_of-slots_from :
    (weight : RequiredVisit → ℕ) (index : ℕ) (in_calendar : List (String × DateOnly))
    (visits : List RequiredVisit)
    → weight_of weight (slots_from index in_calendar visits) ≡ sum_of weight visits
unfolding slots_from
weight_of-slots_from weight index in_calendar [] = refl
weight_of-slots_from weight index in_calendar (visit ∷ visits) =
    omega (arith, weight_of-slots_from weight (suc index) in_calendar visits)

sum_of-visits :
    (weight : RequiredVisit → ℕ) (slots : List Slot)
    → sum_of weight (map (λ slot. slot.visit) slots) ≡ weight_of weight slots
sum_of-visits weight [] = refl
sum_of-visits weight (slot ∷ slots) = omega (arith, sum_of-visits weight slots)

module _ (required : List RequiredVisit) (capacity : CapacityByDay) (standing : List StandingVisit)
    (is_feasible : Option FeasibilityCheck) (in_calendar : List (String × DateOnly)) where
  abbrev pub first_board : Board
  first_board = board required capacity standing is_feasible in_calendar

  abbrev pub start : Guard
  start = counted required capacity standing is_feasible in_calendar

  abbrev pub middle : Guard
  middle = spread_over_days required capacity standing is_feasible in_calendar

  abbrev pub final : Guard
  final = (resolved required capacity standing is_feasible in_calendar).guard

  pub counted-distinct : HasDistinctSlots start
  counted-distinct = (counted-IsExact required capacity standing in_calendar is_feasible).distinct

  pub spread_over_days-Reaches : Reaches capacity start middle
  unfolding spread_over_days
  spread_over_days-Reaches =
      relieve-Reaches capacity first_board.standing_by_agreement
        (overloaded capacity first_board.load) start counted-distinct

  resolve_with-Reaches :
      (check : Option FeasibilityCheck) (guard : Guard)
      → Reaches capacity guard
          (resolve_with required capacity standing is_feasible in_calendar check guard).guard
  resolve_with-Reaches none guard = stays
  resolve_with-Reaches (some check) guard = resolve-Reaches capacity _ standing check _ _

  pub resolved-Reaches : Reaches capacity middle final
  unfolding resolved
  resolved-Reaches = resolve_with-Reaches is_feasible middle

  -- The whole guard is a sequence of moves and sheds.
  pub guard-Reaches : Reaches capacity start final
  guard-Reaches =
      Reaches-trans capacity start middle final spread_over_days-Reaches resolved-Reaches

  pub record IsKept (result : LoadGuardResult) : Type 0 where
    pub work_kept :
        (weight : Work → ℕ)
        → sum_of (λ visit. weight (work_of visit)) result.required
            + sum_of (λ entry. weight (work_of entry.visit)) result.unplaceable
          ≡ sum_of (λ visit. weight (work_of visit)) required
    pub each_has_fate :
        (visit : RequiredVisit)
        → In visit required
        → Any (IsPlanFor visit) result.required
          ⊎ Any (λ entry. IsPlanFor visit entry.visit) result.unplaceable
    pub booked_untouched :
        (visit : RequiredVisit)
        → In visit required
        → visit.placement ≡ booked
        → In visit result.required
    pub existing_stands :
        (visit : RequiredVisit)
        → In visit required
        → In {A = String × DateOnly} (visit.service_agreement_id, visit.visit_date) in_calendar
        → Any (SameWork visit) result.required

  -- Each visit that was asked for is planned or reported as unplaceable, for the same work and on
  -- the day asked for or one of its alternatives. Nothing is lost, doubled or made up: of any work
  -- as much is planned and reported together as was asked for, however it is weighed. A booked visit
  -- is planned exactly as it was, and one that already stands in the calendar on its own date keeps a
  -- visit for the same work, in the same period, whatever the capacities and the check on
  -- feasibility.
  pub apply_daily_load_guard-IsKept :
      IsKept (apply_daily_load_guard required capacity standing is_feasible in_calendar)
  unfolding apply_daily_load_guard counted
  apply_daily_load_guard-IsKept = record {
    work_kept = λ weight.
        let total : ℕ = sum_of (λ visit. weight (work_of visit)) required in
        let kept =
          Reaches-invariant capacity (WeighsThe capacity weight total)
            (Step-WeighsThe capacity weight total) start final guard-Reaches
            (
              counted-distinct,
              omega (
                arith,
                weight_of-slots_from (λ visit. weight (work_of visit)) 0 in_calendar required,
              ),
            ) in
        omega (arith, kept.1, sum_of-visits (λ visit. weight (work_of visit)) final.slots);
    each_has_fate = λ visit m.
        let (slot, n, e, held) = slots_from-In 0 in_calendar required visit m in
        let fate =
          Reaches-invariant capacity (HasFate capacity visit) (Step-HasFate capacity visit) start
            final guard-Reaches (counted-distinct, inl (slot, n, rw e (IsVersionOf-refl visit))) in
        elim (fate.1) [
          | inl (last, k, version) ↦ inl (
              Any-of_In (IsPlanFor visit) (map (λ s. s.visit) final.slots) last.visit
                (map-In (λ s. s.visit) final.slots last k) (version.0))
          | inr (entry, k, version) ↦ inr (
              Any-of_In (λ entry. IsPlanFor visit entry.visit) final.unplaceable entry k
                (version.0))
        ];
    booked_untouched = λ visit m b.
        let (slot, n, e, held) = slots_from-In 0 in_calendar required visit m in
        let still : is_booked slot ≡ true =
          (placement_eq.beq_iff slot.visit.placement booked).1 (ap (λ v. v.placement) e ∙ b) in
        let (d, last, k, t, same) =
          Reaches-invariant capacity (HoldsBooked capacity visit) (Step-HoldsBooked capacity visit)
            start final guard-Reaches (counted-distinct, slot, n, still, e) in
        rw (← same) (map-In (λ s. s.visit) final.slots last k);
    existing_stands = λ visit m held_on.
        let (slot, n, e, held) = slots_from-In 0 in_calendar required visit m in
        let (d, last, k, t, same) =
          Reaches-invariant capacity (HoldsExisting capacity visit)
            (Step-HoldsExisting capacity visit) start final guard-Reaches
            (counted-distinct, slot, n, held held_on, rw e (SameWork-refl visit)) in
        Any-of_In (SameWork visit) (map (λ s. s.visit) final.slots) last.visit
          (map-In (λ s. s.visit) final.slots last k) same;
  }
