-- ===== src/Generation/Plan/Additions.antt =====
-- What `planGeneration` adds: the requirements whose slot no visit holds.
use ultrakil_scheduling_syst.Prelude.{
  ◌≡◌, refl, sym, ◌∙◌, ap, Bool, not, Option, none, some, List, [], ◌∷◌, ◌++◌, arith, nat_eq,
  string_eq, pair_eq, is_some, some_of, filter, lookup, if◌then◌else◌, String,
}
use mathlib.Core.List.{append_assoc, append-nil}
use ultrakil_scheduling_syst.Generation.Requirement.{RequiredVisit, ExistingVisit}
use ultrakil_scheduling_syst.Generation.Plan.{
  Key, key_of_required, index_existing, Progress, GenerationPlan, ProtectionReason, settle_found,
  compare_step, compare_required, sweep_one, sweep_existing, plan_generation, compared,
  protection_reason_for,
}
use ultrakil_scheduling_syst.Generation.Plan.Index.{has_key, is_some-lookup-index_existing}

-- A visit with the requirement's agreement, date and start time is in the calendar.
abbrev pub is_taken : List ExistingVisit → RequiredVisit → Bool
is_taken existing want = some_of (has_key (key_of_required want)) existing

additions-settle_found :
    (plan : GenerationPlan) (want : RequiredVisit) (found : ExistingVisit)
    (protection : Option ProtectionReason)
    → (settle_found plan want found protection).additions ≡ plan.additions
unfolding settle_found
additions-settle_found plan want found none = ground arith
additions-settle_found plan want found (some p) = ground arith

additions-compare_step :
    (found : Option ExistingVisit) (progress : Progress) (want : RequiredVisit)
    → (compare_step found progress want).plan.additions
      ≡ progress.plan.additions ++ (if is_some found then [] else want ∷ [])
unfolding compare_step
additions-compare_step none progress want = refl
additions-compare_step (some found) progress want =
    additions-settle_found progress.plan want found (protection_reason_for found)
    ∙ sym (append-nil progress.plan.additions)

abbrev is_new : List (Key × ExistingVisit) → RequiredVisit → Bool
is_new by_key want = not (is_some (lookup (key_of_required want) by_key))

additions-compare_required :
    (by_key : List (Key × ExistingVisit)) (wants : List RequiredVisit) (progress : Progress)
    → (compare_required by_key wants progress).plan.additions
      ≡ progress.plan.additions ++ filter (is_new by_key) wants
unfolding compare_required
additions-compare_required by_key [] progress = sym (append-nil progress.plan.additions)
additions-compare_required by_key (want ∷ wants) progress =
    let found = lookup (key_of_required want) by_key in
    additions-compare_required by_key wants (compare_step found progress want)
    ∙ (ap (λ l. l ++ filter (is_new by_key) wants) (additions-compare_step found progress want)
        ∙ (append_assoc progress.plan.additions _ _
            ∙ ap (λ l. progress.plan.additions ++ l) (joined found)))
  where
    joined :
        (found : Option ExistingVisit)
        → (if is_some found then [] else want ∷ []) ++ filter (is_new by_key) wants ≡ (
            if not (is_some found)
            then want ∷ filter (is_new by_key) wants
            else filter (is_new by_key) wants)
    joined none = refl
    joined (some _) = refl

pub additions-sweep_existing :
    (matched : List String) (visits : List ExistingVisit) (plan : GenerationPlan)
    → (sweep_existing matched visits plan).additions ≡ plan.additions
unfolding sweep_existing
additions-sweep_existing matched [] plan = refl
additions-sweep_existing matched (visit ∷ visits) plan =
    additions-sweep_existing matched visits (sweep_one matched plan visit) ∙ swept
  where
    swept : (sweep_one matched plan visit).additions ≡ plan.additions
    swept = ground arith

filter_congr :
    (p q : RequiredVisit → Bool) (wants : List RequiredVisit)
    → ((w : RequiredVisit) → p w ≡ q w)
    → filter p wants ≡ filter q wants
filter_congr p q [] h = refl
filter_congr p q (w ∷ wants) h = ground (arith, h w, filter_congr p q wants h)

pub is_new-index_existing :
    (existing : List ExistingVisit) (want : RequiredVisit)
    → is_new (index_existing existing []) want ≡ not (is_taken existing want)
unfolding lookup
is_new-index_existing existing want =
    ground (arith, is_some-lookup-index_existing (key_of_required want) existing [])

-- The additions are exactly the requirements whose agreement, date and start time no visit of
-- the calendar has, in the order in which they were required.
pub plan_generation-additions :
    (required : List RequiredVisit) (existing : List ExistingVisit)
    → (plan_generation required existing).additions
      ≡ filter (λ want. not (is_taken existing want)) required
unfolding plan_generation
plan_generation-additions required existing =
    additions-sweep_existing (compared required existing).matched_ids existing
      (compared required existing).plan
    ∙ (additions-compare_required (index_existing existing []) required _
        ∙ filter_congr _ _ required (is_new-index_existing existing))
