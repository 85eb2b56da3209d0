-- ===== src/Generation/Plan/Compared.antt =====
-- The loop of `planGeneration` over the requirements: the bucket that each one goes to.
use ultrakil_scheduling_syst.Prelude.{
  ◌+◌, ◌≡◌, ◌≢◌, refl, sym, ap, ◌∙◌, inl, inr, true, false, Option, none, some, List, [], ◌∷◌, ◌++◌,
  arith, nat_eq, string_eq, pair_eq, lookup, null, length, length-append, In, Option-cases,
  Bool-cases,
}
use mathlib.Core.List.{append_assoc, append-nil}
use ultrakil_scheduling_syst.Domain.{DateOnly}
use ultrakil_scheduling_syst.Generation.Requirement.{RequiredVisit, ExistingVisit}
use ultrakil_scheduling_syst.Generation.Plan.{
  Change, key_of_required, key_of_existing, index_existing, Progress, GenerationPlan, PlannedUpdate,
  ProtectionReason, ProtectedVisit, WouldHave, settle_found, compare_step, compare_required,
  protection_reason_for, diff, with_pinned_day, update_of, report_of,
}
use ultrakil_scheduling_syst.Generation.Plan.Index.{lookup-index_existing}
use ultrakil_scheduling_syst.Generation.Plan.Additions.{is_taken, is_new-index_existing}

-- A visit of the calendar on the requirement's slot.
abbrev pub IsOnSlot : List ExistingVisit → RequiredVisit → ExistingVisit → Type 0
IsOnSlot existing want found = In found existing × (key_of_existing found ≡ key_of_required want)

module _ (existing : List ExistingVisit) where
  -- The requirements in turn, each in one bucket: added, updating a visit on its slot, reported
  -- against a protected one, or left as it is.
  pub data Compares
      : List RequiredVisit
        → List RequiredVisit
        → List PlannedUpdate
        → List ProtectedVisit
        → List RequiredVisit
        → Type 0 where
    no_more : Compares [] [] [] [] []
    adds :
        (want : RequiredVisit) (wants additions unchanged : List RequiredVisit)
        (updates : List PlannedUpdate) (held : List ProtectedVisit)
        → is_taken existing want ≡ false
        → Compares wants additions updates held unchanged
        → Compares (want ∷ wants) (want ∷ additions) updates held unchanged
    updates_one :
        (want : RequiredVisit) (found : ExistingVisit)
        (wants additions unchanged : List RequiredVisit) (updates : List PlannedUpdate)
        (held : List ProtectedVisit)
        → IsOnSlot existing want found
        → protection_reason_for found ≡ none
        → diff found want ≢ []
        → Compares wants additions updates held unchanged
        → Compares
            (want ∷ wants)
            additions
            (update_of found want (diff found want) ∷ updates)
            held
            unchanged
    holds_one :
        (want : RequiredVisit) (found : ExistingVisit) (reason : ProtectionReason)
        (wants additions unchanged : List RequiredVisit) (updates : List PlannedUpdate)
        (held : List ProtectedVisit)
        → IsOnSlot existing want found
        → protection_reason_for found ≡ some reason
        → with_pinned_day found want.pinned_from (diff found want) ≢ []
        → Compares wants additions updates held unchanged
        → Compares
            (want ∷ wants)
            additions
            updates
            (report_of found reason WouldHave.update
                (some (with_pinned_day found want.pinned_from (diff found want)))
              ∷ held)
            unchanged
    leaves_one :
        (want : RequiredVisit) (found : ExistingVisit)
        (wants additions unchanged : List RequiredVisit) (updates : List PlannedUpdate)
        (held : List ProtectedVisit)
        → IsOnSlot existing want found
        → diff found want ≡ []
        → ((reason : ProtectionReason)
            → protection_reason_for found ≡ some reason
            → with_pinned_day found want.pinned_from (diff found want) ≡ [])
        → Compares wants additions updates held unchanged
        → Compares (want ∷ wants) additions updates held (want ∷ unchanged)

  -- What is added to each list of a plan.
  pub record Extends (before after : GenerationPlan) (additions : List RequiredVisit)
      (updates : List PlannedUpdate) (held : List ProtectedVisit) (unchanged : List RequiredVisit)
      : Type 0 where
    pub with_additions : after.additions ≡ before.additions ++ additions
    pub with_updates : after.updates ≡ before.updates ++ updates
    pub with_held : after.protected_visits ≡ before.protected_visits ++ held
    pub with_unchanged : after.unchanged_count ≡ before.unchanged_count + length unchanged
    pub same_removals : after.removals ≡ before.removals

  -- One requirement goes to one bucket, whatever becomes of the rest.
  abbrev Goes : RequiredVisit → GenerationPlan → GenerationPlan → Type 0
  Goes want before after =
      (additions : List RequiredVisit) × (updates : List PlannedUpdate) × (held : List
        ProtectedVisit)
      × (unchanged : List RequiredVisit) × Extends before after additions updates held unchanged
      × ((wants news us : List RequiredVisit) (ups : List PlannedUpdate) (ps : List ProtectedVisit)
          → Compares wants news ups ps us
          → Compares (want ∷ wants) (additions ++ news) (updates ++ ups) (held ++ ps)
              (unchanged ++ us))

  -- What the loop makes of requirements.
  abbrev pub Settles : List RequiredVisit → GenerationPlan → GenerationPlan → Type 0
  Settles wants before after =
      (additions : List RequiredVisit) × (updates : List PlannedUpdate) × (held : List
        ProtectedVisit)
      × (unchanged : List RequiredVisit) × Extends before after additions updates held unchanged
      × Compares wants additions updates held unchanged

  not_null : {A : Type 0} (xs : List A) → null xs ≡ false → xs ≢ []
  not_null [] f e = absurd (cc)
  not_null (x ∷ xs) f e = absurd (let t : false ≡ true = ap null e in cc)

  is_null : {A : Type 0} (xs : List A) → null xs ≡ true → xs ≡ []
  is_null [] t = refl
  is_null (x ∷ xs) t = absurd (cc)

  -- Nothing is reported only where nothing differs.
  pinned-nil :
      (found : ExistingVisit) (want : RequiredVisit)
      → with_pinned_day found want.pinned_from (diff found want) ≡ []
      → diff found want ≡ []
  unfolding with_pinned_day
  pinned-nil found want e = go want.pinned_from (diff found want) e
    where
      go :
          (from : Option DateOnly) (changes : List Change)
          → with_pinned_day found from changes ≡ []
          → changes ≡ []
      go none changes e = e
      go (some chosen) changes e = ground arith

  settle_found-Goes :
      (plan : GenerationPlan) (want : RequiredVisit) (found : ExistingVisit)
      (protection : Option ProtectionReason)
      → protection_reason_for found ≡ protection
      → IsOnSlot existing want found
      → Goes want plan (settle_found plan want found protection)
  unfolding settle_found
  settle_found-Goes plan want found none p slot = elim (Bool-cases (null (diff found want))) [
    | inl t ↦ rw t (
      [],
      [],
      [],
      want ∷ [],
      record {
        with_additions = sym (append-nil plan.additions);
        with_updates = sym (append-nil plan.updates);
        with_held = sym (append-nil plan.protected_visits);
        with_unchanged = omega arith;
        same_removals = refl;
      },
      λ wants news us ups ps h.
          leaves_one want found wants news us ups ps slot (is_null _ t) (λ reason held. absurd (cc))
            h,
    )
    | inr f ↦ rw f (
      [],
      update_of found want (diff found want) ∷ [],
      [],
      [],
      record {
        with_additions = sym (append-nil plan.additions);
        with_updates = refl;
        with_held = sym (append-nil plan.protected_visits);
        with_unchanged = omega arith;
        same_removals = refl;
      },
      λ wants news us ups ps h. updates_one want found wants news us ups ps slot p (not_null _ f) h,
    )
  ]
  settle_found-Goes plan want found (some reason) p slot =
      let changes = with_pinned_day found want.pinned_from (diff found want) in
      elim (Bool-cases (null changes)) [
        | inl t ↦ rw t (
          [],
          [],
          [],
          want ∷ [],
          record {
            with_additions = sym (append-nil plan.additions);
            with_updates = sym (append-nil plan.updates);
            with_held = sym (append-nil plan.protected_visits);
            with_unchanged = omega arith;
            same_removals = refl;
          },
          λ wants news us ups ps h.
              leaves_one want found wants news us ups ps slot
                (pinned-nil found want (is_null changes t)) (λ _ _. is_null changes t) h,
        )
        | inr f ↦ rw f (
          [],
          [],
          report_of found reason WouldHave.update (some changes) ∷ [],
          [],
          record {
            with_additions = sym (append-nil plan.additions);
            with_updates = sym (append-nil plan.updates);
            with_held = refl;
            with_unchanged = omega arith;
            same_removals = refl;
          },
          λ wants news us ups ps h.
              holds_one want found reason wants news us ups ps slot p (not_null changes f) h,
        )
      ]

  compare_step-Goes :
      (progress : Progress) (want : RequiredVisit)
      → Goes want progress.plan
          (compare_step
            (lookup (key_of_required want) (index_existing existing []))
            progress
            want).plan
  unfolding compare_step lookup
  compare_step-Goes progress want =
      elim (Option-cases (lookup (key_of_required want) (index_existing existing []))) [
        | inl missing ↦
            let new = is_new-index_existing existing want in
            let free : is_taken existing want ≡ false = ground (arith, new, missing) in
            rw missing (
              want ∷ [],
              [],
              [],
              [],
              record {
                with_additions = refl;
                with_updates = sym (append-nil progress.plan.updates);
                with_held = sym (append-nil progress.plan.protected_visits);
                with_unchanged = omega arith;
                same_removals = refl;
              },
              λ wants news us ups ps h. adds want wants news us ups ps free h,
            )
        | inr (found, e) ↦ rw e (
            settle_found-Goes progress.plan want found (protection_reason_for found) refl
              (elim (lookup-index_existing (key_of_required want) existing [] found e) [
                | inl slot ↦ slot
                | inr e' ↦ absurd (cc)
              ]))
      ]

  Goes-rest :
      (want : RequiredVisit) (wants : List RequiredVisit) (first middle last : GenerationPlan)
      → Goes want first middle
      → Settles wants middle last
      → Settles (want ∷ wants) first last
  Goes-rest want wants first middle last (a, u, p, k, one, next) (news, ups, ps, us, rest, h) = (
    a ++ news,
    u ++ ups,
    p ++ ps,
    k ++ us,
    record {
      with_additions =
          rest.with_additions
          ∙ (ap (λ l. l ++ news) one.with_additions ∙ append_assoc first.additions a news);
      with_updates =
          rest.with_updates
          ∙ (ap (λ l. l ++ ups) one.with_updates ∙ append_assoc first.updates u ups);
      with_held =
          rest.with_held
          ∙ (ap (λ l. l ++ ps) one.with_held ∙ append_assoc first.protected_visits p ps);
      with_unchanged = omega (arith, rest.with_unchanged, one.with_unchanged, length-append k us);
      same_removals = rest.same_removals ∙ one.same_removals;
    },
    next wants news us ups ps h,
  )

  pub compare_required-Settles :
      (wants : List RequiredVisit) (progress : Progress)
      → Settles wants progress.plan
          (compare_required (index_existing existing []) wants progress).plan
  unfolding compare_required
  compare_required-Settles [] progress = (
    [],
    [],
    [],
    [],
    record {
      with_additions = sym (append-nil progress.plan.additions);
      with_updates = sym (append-nil progress.plan.updates);
      with_held = sym (append-nil progress.plan.protected_visits);
      with_unchanged = omega arith;
      same_removals = refl;
    },
    no_more,
  )
  compare_required-Settles (want ∷ wants) progress =
      let next =
        compare_step (lookup (key_of_required want) (index_existing existing [])) progress want in
      Goes-rest want wants progress.plan next.plan
        (compare_required (index_existing existing []) wants next).plan
        (compare_step-Goes progress want) (compare_required-Settles wants next)
