-- ===== src/Generation/Plan/Examples.antt =====
-- A small calendar, and what a plan makes of it.
use ultrakil_scheduling_syst.Prelude.{
  ℕ, ◌≡◌, refl, sym, ◌∙◌, string_eq, inl, inr, Bool, true, false, not, none, List, [], ◌∷◌, arith,
  String, length, All, has, lookup, insert, filter,
}
use ultrakil_scheduling_syst.Prelude.Int.{pos}
use ultrakil_scheduling_syst.Domain.{
  BranchCode, VisitPlacement, placement_name, VisitPlacement-discrete,
}
use ultrakil_scheduling_syst.Generation.Requirement.{RequiredVisit, ExistingVisit}
use ultrakil_scheduling_syst.Generation.Plan.{
  plan_generation, protection_reason_for, plan_is_empty, empty_plan,
}
use ultrakil_scheduling_syst.Generation.Plan.Additions.{is_taken, plan_generation-additions}
use ultrakil_scheduling_syst.Generation.Plan.Protection.{
  IsFreeUpdate, IsFreeRemoval, plan_generation-IsFree,
}
use ultrakil_scheduling_syst.Generation.Plan.Settled.{
  HasDistinctKeys, SameTerms, plan_generation_settled,
}

program : Unit {0}
unfolding plan_generation protection_reason_for placement_name lookup insert has
    VisitPlacement-discrete
program = tt

abbrev want : ℕ → ℕ → RequiredVisit
want date duration = record {
  service_agreement_id = "agreement";
  visit_date = date;
  window_start_minute = 480;
  window_end_minute = 1020;
  duration_minutes = duration;
  required_crew_size = 2;
  required_skill_codes = [];
  branch_code = BranchCode.colombo;
  agreement_version_id = none;
  window_provenance = none;
  is_preferred_day = true;
  placement = VisitPlacement.earliest;
  period_index = pos 0;
  alternatives = [];
  pinned_from = none;
}

abbrev visit : String → ℕ → Bool → ExistingVisit
visit id date is_locked = record {
  id = id;
  updated_at = 7;
  service_agreement_id = "agreement";
  visit_date = date;
  window_start_minute = 480;
  window_end_minute = 1020;
  duration_minutes = 60;
  required_crew_size = 2;
  status = "PENDING";
  placement = VisitPlacement.earliest;
  is_manually_adjusted = false;
  is_locked = is_locked;
  has_assignments = false;
}

-- One requirement per bucket, and two visits that nothing asks for.
abbrev wants : List RequiredVisit
wants = want 1 60 ∷ want 2 90 ∷ want 3 60 ∷ want 4 90 ∷ []

abbrev calendar : List ExistingVisit
calendar =
    visit "a" 1 false
    ∷ visit "b" 2 false
    ∷ visit "d" 4 true
    ∷ visit "e" 5 false
    ∷ visit "f" 6 true
    ∷ []

plan_counts :
    (length (plan_generation wants calendar).additions ≡ 1)
    × (length (plan_generation wants calendar).updates ≡ 1)
    × (length (plan_generation wants calendar).removals ≡ 1)
    × (length (plan_generation wants calendar).protected_visits ≡ 2)
    × ((plan_generation wants calendar).unchanged_count ≡ 1)
unfolding program
plan_counts = (refl, refl, refl, refl, refl)

plan_generation-additions_example :
    (plan_generation wants calendar).additions ≡ filter (λ w. not (is_taken calendar w)) wants
plan_generation-additions_example = plan_generation-additions wants calendar

plan_generation-IsFree_example :
    All (IsFreeUpdate calendar) (plan_generation wants calendar).updates
    × All (IsFreeRemoval calendar) (plan_generation wants calendar).removals
plan_generation-IsFree_example = plan_generation-IsFree wants calendar

abbrev pair : List ExistingVisit
pair = visit "a" 1 false ∷ visit "b" 2 true ∷ []

pair-HasDistinctKeys : HasDistinctKeys pair
pair-HasDistinctKeys v w (inl p) (inl q) same = sym p ∙ q
pair-HasDistinctKeys v w (inl p) (inr (inl q)) same = absurd (ground arith)
pair-HasDistinctKeys v w (inr (inl p)) (inl q) same = absurd (ground arith)
pair-HasDistinctKeys v w (inr (inl p)) (inr (inl q)) same = sym p ∙ q
pair-HasDistinctKeys v w (inr (inr m)) k same = absurd m
pair-HasDistinctKeys v w m (inr (inr k)) same = absurd k

same_terms : SameTerms (visit "a" 1 false) (want 1 60)
same_terms = record {
  same_end = refl;
  same_duration = refl;
  same_crew = refl;
  same_placement = refl;
}

plan_generation_settled_example :
    (plan_generation (want 1 60 ∷ want 2 60 ∷ []) pair ≡ record empty_plan { unchanged_count = 2 })
    × (plan_is_empty (plan_generation (want 1 60 ∷ want 2 60 ∷ []) pair) ≡ true)
plan_generation_settled_example =
    plan_generation_settled (want 1 60 ∷ want 2 60 ∷ []) pair pair-HasDistinctKeys
      (
        (visit "a" 1 false, inl refl, refl, same_terms, refl),
        (
          (
            visit "b" 2 true,
            inr (inl refl),
            refl,
            record {
              same_end = refl;
              same_duration = refl;
              same_crew = refl;
              same_placement = refl;
            },
            refl,
          ),
          tt,
        ),
      )
      (inl refl, (inr (inl refl), tt))
