-- ===== src/Generation/Plan/Protection.antt =====
-- The governing rule of plan.ts: work that somebody decided on is reported, never changed.
use ultrakil_scheduling_syst.Prelude.{
  Bool, if◌then◌else◌, ◌==◌, true, false, ℕ, ◌≡◌, refl, ◌∙◌, inl, inr, Option, none, some, List, [],
  ◌∷◌, arith, nat_eq, string_eq, pair_eq, All, Any, Any-of_In, In, All-append, lookup, null, String,
  has, Option-cases, Bool-cases,
}
use ultrakil_scheduling_syst.Generation.Requirement.{RequiredVisit, ExistingVisit}
use ultrakil_scheduling_syst.Generation.Plan.{
  Key, key_of_required, index_existing, Progress, GenerationPlan, ProtectionReason, PlannedUpdate,
  PlannedRemoval, settle_found, compare_step, compare_required, sweep_one, sweep_existing,
  plan_generation, compared, empty_plan, protection_reason_for, protected_status, diff,
  with_pinned_day,
}
use ultrakil_scheduling_syst.Generation.Plan.Index.{lookup-index_existing}

-- A visit that nobody has decided anything about.
pub record IsOpen (visit : ExistingVisit) : Type 0 where
  pub not_locked : visit.is_locked ≡ false
  pub not_edited : visit.is_manually_adjusted ≡ false
  pub not_staffed : visit.has_assignments ≡ false
  pub not_scheduled : ¬ (visit.status ≡ "SCHEDULED")
  pub not_completed : ¬ (visit.status ≡ "COMPLETED")
  pub not_cancelled : ¬ (visit.status ≡ "CANCELLED")

-- What the tests of a status answer where none of them holds.
tests_none :
    (x y z : ProtectionReason) (a b c : Bool)
    → (if a then some x else if b then some y else if c then some z else none) ≡ none
    → (a ≡ false) × (b ≡ false) × (c ≡ false)
tests_none x y z true b c e = absurd (cc)
tests_none x y z false true c e = absurd (cc)
tests_none x y z false false true e = absurd (cc)
tests_none x y z false false false e = (refl, refl, refl)

is_not : (s t : String) → (s == t) ≡ false → ¬ (s ≡ t)
is_not s t f e = let same : (s == t) ≡ true = (string_eq.beq_iff s t).1 e in cc

-- What each test of the source has to answer for a visit that it leaves unprotected.
protection_reason_for-IsOpen :
    (visit : ExistingVisit) → protection_reason_for visit ≡ none → IsOpen visit
unfolding protection_reason_for protected_status
protection_reason_for-IsOpen visit free = elim (Option-cases (protected_status visit.status)) [
  | inl open_ ↦
      let (s, c, x) =
        tests_none _ _ _ (visit.status == "SCHEDULED") (visit.status == "COMPLETED")
          (visit.status == "CANCELLED") open_ in
      record {
        not_locked = ground arith;
        not_edited = ground arith;
        not_staffed = ground arith;
        not_scheduled = is_not visit.status "SCHEDULED" s;
        not_completed = is_not visit.status "COMPLETED" c;
        not_cancelled = is_not visit.status "CANCELLED" x;
      }
  | inr (reason, held) ↦ absurd (ground arith)
]

-- An open visit of the calendar with this id and this time stamp.
abbrev pub IsFree : List ExistingVisit → String → ℕ → Type 0
IsFree existing id stamp =
    Any (λ visit. (visit.id ≡ id) × (visit.updated_at ≡ stamp) × IsOpen visit) existing

abbrev pub IsFreeUpdate : List ExistingVisit → PlannedUpdate → Type 0
IsFreeUpdate existing u = IsFree existing u.visit_id u.expected_updated_at

abbrev pub IsFreeRemoval : List ExistingVisit → PlannedRemoval → Type 0
IsFreeRemoval existing r = IsFree existing r.visit_id r.expected_updated_at

module _ (existing : List ExistingVisit) where
  settle_found-IsFree :
      (plan : GenerationPlan) (want : RequiredVisit) (found : ExistingVisit)
      (protection : Option ProtectionReason)
      → In found existing
      → protection_reason_for found ≡ protection
      → All (IsFreeUpdate existing) plan.updates
      → All (IsFreeUpdate existing) (settle_found plan want found protection).updates
  unfolding settle_found
  settle_found-IsFree plan want found none m e h = elim (Bool-cases (null (diff found want))) [
    | inl t ↦ rw (t, settle_found) h
    | inr f ↦
        rw (f, settle_found)
          (All-append (IsFreeUpdate existing) plan.updates _ h
            (Any-of_In _ existing found m (refl, refl, protection_reason_for-IsOpen found e), tt))
  ]
  settle_found-IsFree plan want found (some p) m e h =
      elim (Bool-cases (null (with_pinned_day found want.pinned_from (diff found want)))) [
        | inl t ↦ rw (t, settle_found) h
        | inr f ↦ rw (f, settle_found) h
      ]

  compare_step-IsFree :
      (found : Option ExistingVisit) (progress : Progress) (want : RequiredVisit)
      → ((v : ExistingVisit) → found ≡ some v → In v existing)
      → All (IsFreeUpdate existing) progress.plan.updates
      → All (IsFreeUpdate existing) (compare_step found progress want).plan.updates
  unfolding compare_step
  compare_step-IsFree none progress want m h = h
  compare_step-IsFree (some found) progress want m h =
      settle_found-IsFree progress.plan want found (protection_reason_for found) (m found refl) refl
        h

  compare_required-IsFree :
      (by_key : List (Key × ExistingVisit)) (wants : List RequiredVisit) (progress : Progress)
      → ((key : Key) (v : ExistingVisit) → lookup key by_key ≡ some v → In v existing)
      → All (IsFreeUpdate existing) progress.plan.updates
      → All (IsFreeUpdate existing) (compare_required by_key wants progress).plan.updates
  unfolding compare_required
  compare_required-IsFree by_key [] progress m h = h
  compare_required-IsFree by_key (want ∷ wants) progress m h =
      compare_required-IsFree by_key wants _ m (
        compare_step-IsFree (lookup (key_of_required want) by_key) progress want
          (m (key_of_required want)) h)

  sweep_one-IsFree :
      (matched : List String) (plan : GenerationPlan) (visit : ExistingVisit)
      → In visit existing
      → All (IsFreeRemoval existing) plan.removals
      → All (IsFreeRemoval existing) (sweep_one matched plan visit).removals
  unfolding sweep_one
  sweep_one-IsFree matched plan visit m h = elim (Bool-cases (has visit.id matched)) [
    | inl t ↦ rw (t, sweep_one) h
    | inr f ↦ elim (Option-cases (protection_reason_for visit)) [
      | inl free ↦
          rw (f, free, sweep_one)
            (All-append (IsFreeRemoval existing) plan.removals _ h (
              Any-of_In _ existing visit m (refl, refl, protection_reason_for-IsOpen visit free),
              tt,
            ))
      | inr (reason, held) ↦ rw (f, held, sweep_one) h
    ]
  ]

  sweep_existing-IsFree :
      (matched : List String) (visits : List ExistingVisit) (plan : GenerationPlan)
      → ((v : ExistingVisit) → In v visits → In v existing)
      → All (IsFreeRemoval existing) plan.removals
      → All (IsFreeRemoval existing) (sweep_existing matched visits plan).removals
  unfolding sweep_existing
  sweep_existing-IsFree matched [] plan m h = h
  sweep_existing-IsFree matched (visit ∷ visits) plan m h =
      sweep_existing-IsFree matched visits _ (λ v k. m v (inr k))
        (sweep_one-IsFree matched plan visit (m visit (inl refl)) h)

-- A lookup in the index finds visits of the calendar only.
index_existing-In :
    (existing : List ExistingVisit) (key : Key) (v : ExistingVisit)
    → lookup key (index_existing existing []) ≡ some v
    → In v existing
unfolding lookup
index_existing-In existing key v h = elim (lookup-index_existing key existing [] v h) [
  | inl (m, _) ↦ m
  | inr e ↦ absurd (cc)
]

compared-IsFree :
    (required : List RequiredVisit) (existing : List ExistingVisit)
    → All (IsFreeUpdate existing) (compared required existing).plan.updates
compared-IsFree required existing =
    compare_required-IsFree existing (index_existing existing []) required _
      (index_existing-In existing) tt

updates-sweep_existing :
    (matched : List String) (visits : List ExistingVisit) (plan : GenerationPlan)
    → (sweep_existing matched visits plan).updates ≡ plan.updates
unfolding sweep_existing
updates-sweep_existing matched [] plan = refl
updates-sweep_existing matched (visit ∷ visits) plan =
    updates-sweep_existing matched visits (sweep_one matched plan visit) ∙ swept
  where
    swept : (sweep_one matched plan visit).updates ≡ plan.updates
    swept = ground arith

removals-compare_required :
    (by_key : List (Key × ExistingVisit)) (wants : List RequiredVisit) (progress : Progress)
    → (compare_required by_key wants progress).plan.removals ≡ progress.plan.removals
unfolding compare_required
removals-compare_required by_key [] progress = refl
removals-compare_required by_key (want ∷ wants) progress =
    let found = lookup (key_of_required want) by_key in
    removals-compare_required by_key wants (compare_step found progress want) ∙ stepped found
  where
    settled :
        (v : ExistingVisit) (protection : Option ProtectionReason)
        → (settle_found progress.plan want v protection).removals ≡ progress.plan.removals
    settled v none = ground arith
    settled v (some p) = ground arith

    stepped :
        (found : Option ExistingVisit)
        → (compare_step found progress want).plan.removals ≡ progress.plan.removals
    stepped none = refl
    stepped (some v) = settled v (protection_reason_for v)

-- Every visit that a plan changes, and every visit that it removes, is a visit of the calendar
-- that nobody has locked, edited, staffed, scheduled, completed or cancelled; the plan carries the
-- time stamp of that very row as its fence.
pub plan_generation-IsFree :
    (required : List RequiredVisit) (existing : List ExistingVisit)
    → All (IsFreeUpdate existing) (plan_generation required existing).updates
      × All (IsFreeRemoval existing) (plan_generation required existing).removals
unfolding plan_generation
plan_generation-IsFree required existing =
    let progress = compared required existing in
    (
      rw (updates-sweep_existing progress.matched_ids existing progress.plan)
          (compared-IsFree required existing),
      sweep_existing-IsFree existing progress.matched_ids existing progress.plan (λ v m. m)
          (rw
            (removals-compare_required (index_existing existing []) required
              (record { plan = empty_plan; matched_ids = [] }))
            tt),
    )
