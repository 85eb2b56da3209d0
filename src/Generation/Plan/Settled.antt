-- ===== src/Generation/Plan/Settled.antt =====
-- Regeneration reports nothing to do over a calendar that already is what the agreements require.
use ultrakil_scheduling_syst.Prelude.{
  ◌+◌, ◌≡◌, refl, ◌∙◌, ap, inl, inr, true, false, Option, none, some, List, [], ◌∷◌, arith, nat_eq,
  string_eq, pair_eq, All, Any, In, lookup, String, has, length, some_of, In-some_of, Option-cases,
  ◌==◌, ◌↔◌, beq_refl,
}
use ultrakil_scheduling_syst.Domain.{placement_eq}
use ultrakil_scheduling_syst.Generation.Requirement.{RequiredVisit, ExistingVisit}
use ultrakil_scheduling_syst.Generation.Plan.{
  key_of_required, key_of_existing, index_existing, Progress, GenerationPlan, ProtectionReason,
  settle_found, compare_step, compare_required, sweep_one, sweep_existing, plan_generation,
  plan_is_empty, empty_plan, compared, protection_reason_for, diff, with_pinned_day,
}
use ultrakil_scheduling_syst.Generation.Plan.Index.{
  has_key, lookup-index_existing, is_some-lookup-index_existing,
}
use ultrakil_scheduling_syst.Generation.Plan.Matched.{has-matched_ids}

-- The four things that a plan compares.
pub record SameTerms (visit : ExistingVisit) (want : RequiredVisit) : Type 0 where
  pub same_end : visit.window_end_minute ≡ want.window_end_minute
  pub same_duration : visit.duration_minutes ≡ want.duration_minutes
  pub same_crew : visit.required_crew_size ≡ want.required_crew_size
  pub same_placement : visit.placement ≡ want.placement

-- `diff` reports no change exactly when the two agree on all four.
pub diff-nil_iff :
    (visit : ExistingVisit) (want : RequiredVisit) → (diff visit want ≡ []) ↔ SameTerms visit want
unfolding diff
diff-nil_iff visit want =
    let e = placement_eq.beq_iff visit.placement want.placement in
    (λ h. ground (arith, e), λ s. ground (arith, e))

-- A visit of the calendar is what the requirement asks for.
abbrev pub Meets : List ExistingVisit → RequiredVisit → Type 0
Meets existing want =
    (visit : ExistingVisit) × In visit existing
    × (key_of_existing visit ≡ key_of_required want)
    × SameTerms visit want
    × (want.pinned_from ≡ none)

abbrev pub HasDistinctKeys : List ExistingVisit → Type 0
HasDistinctKeys existing =
    (v w : ExistingVisit)
    → In v existing
    → In w existing
    → key_of_existing v ≡ key_of_existing w
    → v ≡ w

-- With distinct keys the index finds a visit by its key.
lookup-of_In :
    (existing : List ExistingVisit) (v : ExistingVisit)
    → HasDistinctKeys existing
    → In v existing
    → lookup (key_of_existing v) (index_existing existing []) ≡ some v
unfolding lookup
lookup-of_In existing v unique m =
    elim (Option-cases (lookup (key_of_existing v) (index_existing existing []))) [
      | inl e ↦
          let present =
            In-some_of (has_key (key_of_existing v)) existing m (beq_refl (key_of_existing v)) in
          absurd
            (ground (arith, present, is_some-lookup-index_existing (key_of_existing v) existing []))
      | inr (w, e) ↦ elim (lookup-index_existing (key_of_existing v) existing [] w e) [
        | inl (k, same) ↦ e ∙ ap some (unique w v k m same)
        | inr e' ↦ absurd (cc)
      ]
    ]

compare_step-unchanged :
    (visit : ExistingVisit) (progress : Progress) (want : RequiredVisit)
    → diff visit want ≡ []
    → want.pinned_from ≡ none
    → (compare_step (some visit) progress want).plan
      ≡ record (progress.plan) { unchanged_count = progress.plan.unchanged_count + 1 }
unfolding compare_step
compare_step-unchanged visit progress want same unpinned = settled (protection_reason_for visit)
  where
    settled :
        (protection : Option ProtectionReason)
        → settle_found progress.plan want visit protection
          ≡ record (progress.plan) { unchanged_count = progress.plan.unchanged_count + 1 }
    settled none = rw (same, settle_found)
    settled (some p) = rw (unpinned, same, with_pinned_day, settle_found)

compare_required-unchanged :
    (existing : List ExistingVisit) (wants : List RequiredVisit) (progress : Progress)
    → HasDistinctKeys existing
    → All (Meets existing) wants
    → (compare_required (index_existing existing []) wants progress).plan
      ≡ record (progress.plan) { unchanged_count = progress.plan.unchanged_count + length wants }
unfolding compare_required
compare_required-unchanged existing [] progress unique h = ground arith
compare_required-unchanged existing (want ∷ wants) progress unique
      ((v, m, key, same, unpinned), h) =
    let found : lookup (key_of_required want) (index_existing existing []) ≡ some v =
      rw (← key) (lookup-of_In existing v unique m) in
    let step = compare_step-unchanged v progress want ((diff-nil_iff v want).1 same) unpinned in
    let rest =
      compare_required-unchanged existing wants (compare_step (some v) progress want) unique h in
    rw (found, compare_required) (ground (arith, rest, step))

sweep_existing-unchanged :
    (matched : List String) (visits : List ExistingVisit) (plan : GenerationPlan)
    → All (λ v. has v.id matched ≡ true) visits
    → sweep_existing matched visits plan ≡ plan
unfolding sweep_existing
sweep_existing-unchanged matched [] plan h = refl
sweep_existing-unchanged matched (v ∷ visits) plan (here, h) =
    rw (here, sweep_one) (sweep_existing-unchanged matched visits plan h)

matched_of_key :
    (existing : List ExistingVisit) (wants : List RequiredVisit) (v : ExistingVisit)
    → HasDistinctKeys existing
    → In v existing
    → Any (λ want. key_of_required want ≡ key_of_existing v) wants
    → some_of
        (λ want. elim (lookup (key_of_required want) (index_existing existing [])) [
          | some found ↦ found.id == v.id
          | none ↦ false
        ])
        wants
      ≡ true
matched_of_key existing [] v unique m h = absurd h
matched_of_key existing (want ∷ wants) v unique m (inl e) =
    rw (e, lookup-of_In existing v unique m, beq_refl v.id) refl
matched_of_key existing (want ∷ wants) v unique m (inr h) =
    ground (arith, matched_of_key existing wants v unique m h)

-- If no two visits of the calendar share a slot, every requirement is met by a visit of the calendar
-- on the same slot and on the same terms and is not pinned from another date, and every visit of the
-- calendar is on a required slot, then the plan changes nothing and counts every requirement as
-- unchanged.
pub plan_generation_settled :
    (required : List RequiredVisit) (existing : List ExistingVisit)
    → HasDistinctKeys existing
    → All (Meets existing) required
    → All (λ v. Any (λ want. key_of_required want ≡ key_of_existing v) required) existing
    → (plan_generation required existing ≡ record empty_plan { unchanged_count = length required })
      × (plan_is_empty (plan_generation required existing) ≡ true)
unfolding plan_generation plan_is_empty
plan_generation_settled required existing unique met asked = (settled, rw settled refl)
  where
    start : Progress
    start = record { plan = empty_plan; matched_ids = [] }

    covered :
        (visits : List ExistingVisit)
        → ((v : ExistingVisit) → In v visits → In v existing)
        → All (λ v. Any (λ want. key_of_required want ≡ key_of_existing v) required) visits
        → All (λ v. has v.id (compared required existing).matched_ids ≡ true) visits
    covered [] within h = tt
    covered (v ∷ visits) within (here, h) = (
      ground (
        arith,
        has-matched_ids (index_existing existing []) required start v.id,
        matched_of_key existing required v unique (within v (inl refl)) here,
      ),
      covered visits (λ w m. within w (inr m)) h,
    )

    settled :
        plan_generation required existing ≡ record empty_plan { unchanged_count = length required }
    settled =
        sweep_existing-unchanged (compared required existing).matched_ids existing
          (compared required existing).plan (covered existing (λ v m. m) asked)
        ∙ (compare_required-unchanged existing required start unique met ∙ ground arith)
