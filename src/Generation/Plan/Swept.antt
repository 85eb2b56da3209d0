-- ===== src/Generation/Plan/Swept.antt =====
-- The loop of `planGeneration` over the calendar: what becomes of the visits left over.
use ultrakil_scheduling_syst.Prelude.{
  ◌≡◌, refl, sym, ap, ◌∙◌, inl, inr, Bool, true, false, none, some, List, [], ◌∷◌, ◌++◌, nat_eq,
  string_eq, pair_eq, String, has, Option-cases, Bool-cases,
}
use mathlib.Core.List.{append_assoc, append-nil}
use ultrakil_scheduling_syst.Generation.Requirement.{ExistingVisit}
use ultrakil_scheduling_syst.Generation.Plan.{
  GenerationPlan, PlannedRemoval, ProtectionReason, ProtectedVisit, WouldHave, sweep_one,
  sweep_existing, protection_reason_for, report_of, removal_of,
}

-- The visits of the calendar in turn: one that no requirement was matched to is removed when it is
-- free, and reported when it is protected; one that was matched is in no bucket of the two.
pub data Sweeps (answered : ExistingVisit → Bool)
    : List ExistingVisit → List PlannedRemoval → List ProtectedVisit → Type 0 where
  swept_all : Sweeps answered [] [] []
  passes :
      (visit : ExistingVisit) (visits : List ExistingVisit) (removals : List PlannedRemoval)
      (kept : List ProtectedVisit)
      → answered visit ≡ true
      → Sweeps answered visits removals kept
      → Sweeps answered (visit ∷ visits) removals kept
  removes :
      (visit : ExistingVisit) (visits : List ExistingVisit) (removals : List PlannedRemoval)
      (kept : List ProtectedVisit)
      → answered visit ≡ false
      → protection_reason_for visit ≡ none
      → Sweeps answered visits removals kept
      → Sweeps answered (visit ∷ visits) (removal_of visit ∷ removals) kept
  keeps :
      (visit : ExistingVisit) (reason : ProtectionReason) (visits : List ExistingVisit)
      (removals : List PlannedRemoval) (kept : List ProtectedVisit)
      → answered visit ≡ false
      → protection_reason_for visit ≡ some reason
      → Sweeps answered visits removals kept
      → Sweeps answered
          (visit ∷ visits)
          removals
          (report_of visit reason WouldHave.remove none ∷ kept)

-- What the sweep adds to a plan.
pub record Swept (before after : GenerationPlan) (removals : List PlannedRemoval)
    (kept : List ProtectedVisit) : Type 0 where
  pub and_removals : after.removals ≡ before.removals ++ removals
  pub and_kept : after.protected_visits ≡ before.protected_visits ++ kept
  pub same_additions : after.additions ≡ before.additions
  pub same_updates : after.updates ≡ before.updates
  pub same_unchanged : after.unchanged_count ≡ before.unchanged_count

abbrev pub SweepsTo :
    (ExistingVisit → Bool) → List ExistingVisit → GenerationPlan → GenerationPlan → Type 0
SweepsTo answered visits before after =
    (removals : List PlannedRemoval) × (kept : List ProtectedVisit) × Swept before after removals
      kept
    × Sweeps answered visits removals kept

pushed : {A : Type 0} (x : A) (a b c xs : List A) → c ≡ b ++ xs → b ≡ a ++ x ∷ [] → c ≡ a ++ x ∷ xs
pushed x a b c xs e f = e ∙ (ap (λ l. l ++ xs) f ∙ append_assoc a (x ∷ []) xs)

pub sweep_existing-SweepsTo :
    (answered : ExistingVisit → Bool) (matched : List String) (visits : List ExistingVisit)
    (plan : GenerationPlan)
    → ((visit : ExistingVisit) → has visit.id matched ≡ answered visit)
    → SweepsTo answered visits plan (sweep_existing matched visits plan)
unfolding sweep_existing sweep_one
sweep_existing-SweepsTo answered matched [] plan same = (
  [],
  [],
  record {
    and_removals = sym (append-nil plan.removals);
    and_kept = sym (append-nil plan.protected_visits);
    same_additions = refl;
    same_updates = refl;
    same_unchanged = refl;
  },
  swept_all,
)
sweep_existing-SweepsTo answered matched (visit ∷ visits) plan same =
    elim (Bool-cases (has visit.id matched)) [
      | inl t ↦
          let (removals, kept, swept, h) =
            sweep_existing-SweepsTo answered matched visits plan same in
          rw t (removals, kept, swept, passes visit visits removals kept (sym (same visit) ∙ t) h)
      | inr f ↦ elim (Option-cases (protection_reason_for visit)) [
        | inl free ↦
            let (removals, kept, swept, h) =
              sweep_existing-SweepsTo answered matched visits
                (record plan { removals = plan.removals ++ removal_of visit ∷ [] }) same in
            rw (f, free)
              (
                removal_of visit ∷ removals,
                kept,
                record {
                  and_removals =
                      pushed (removal_of visit) plan.removals _ _ removals swept.and_removals refl;
                  and_kept = swept.and_kept;
                  same_additions = swept.same_additions;
                  same_updates = swept.same_updates;
                  same_unchanged = swept.same_unchanged;
                },
                removes visit visits removals kept (sym (same visit) ∙ f) free h,
              )
        | inr (reason, held) ↦
            let report = report_of visit reason WouldHave.remove none in
            let (removals, kept, swept, h) =
              sweep_existing-SweepsTo answered matched visits
                (record plan { protected_visits = plan.protected_visits ++ report ∷ [] }) same in
            rw (f, held)
              (
                removals,
                report ∷ kept,
                record {
                  and_removals = swept.and_removals;
                  and_kept = pushed report plan.protected_visits _ _ kept swept.and_kept refl;
                  same_additions = swept.same_additions;
                  same_updates = swept.same_updates;
                  same_unchanged = swept.same_unchanged;
                },
                keeps visit reason visits removals kept (sym (same visit) ∙ f) held h,
              )
      ]
    ]
