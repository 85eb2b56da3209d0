-- ===== src/Optimizer/PublishReadiness/Gates.antt =====
-- apps/api/src/scheduling/optimizer/publish-readiness.ts: which publications the gates let through.
use ultrakil_scheduling_syst.Prelude.{
  ◌<◌, ◌≡◌, ◌≢◌, refl, ◌↔◌, ◌⊎◌, inl, inr, Bool, true, false, not, ◌&&◌, ◌||◌, Option, none, some,
  List, [], ◌∷◌, ◌++◌, String, null, Bool-cases, arith,
}
use ultrakil_scheduling_syst.Optimizer.PublishReadiness.{
  PublishReadiness, RunCounters, ProvenanceWarning, Acknowledgement, ready, blocked,
  publish_readiness, missing_publish_acknowledgement, outstanding, say_if, lacks_reason, is_blank,
  partial_publish_message, unconfirmed_source_publish_message, reason_message,
}

-- The run left visits unassigned.
abbrev pub IsPartial : RunCounters → Type 0
IsPartial counters =
    (0 < counters.visits_unassigned) ⊎ (counters.visits_scheduled < counters.visits_considered)

-- A reason with something to read in it.
abbrev pub IsReason : Option String → Type 0
IsReason given = (text : String) × (given ≡ some text) × (is_blank text ≡ false)

-- Every acknowledgement that the publication owes is in hand, and a reason for them.
pub record IsAcknowledged (is_partial rests_on_assumptions : Type 0) (given : Acknowledgement)
    : Type 0 where
  pub partial : is_partial → given.acknowledge_partial ≡ true
  pub provenance : rests_on_assumptions → given.acknowledge_provenance ≡ true
  pub has_reason : is_partial ⊎ rests_on_assumptions → IsReason given.reason

IsReason-iff : (given : Option String) → (lacks_reason given ≡ false) ↔ IsReason given
IsReason-iff none = (λ h. absurd (cc), λ h. let (t, e, b) = h in absurd (cc))
IsReason-iff (some text) =
    (λ h. (text, refl, h), λ h. let (t, e, b) = h in let same : text ≡ t = cc in rw same b)

say_nil : (b : Bool) (text : String) → (null (say_if b text) ≡ true) ↔ (b ≡ false)
say_nil true text = ground arith
say_nil false text = ground arith

null_append : (xs ys : List String) → null (xs ++ ys) ≡ (null xs && null ys)
null_append [] ys = refl
null_append (x ∷ xs) ys = refl

missing_iff :
    (readiness : PublishReadiness) (given : Acknowledgement)
    → (missing_publish_acknowledgement readiness given ≡ none) ↔ (
        ((readiness.requires_partial_acknowledgement && not given.acknowledge_partial) ≡ false)
        × ((readiness.requires_provenance_acknowledgement && not given.acknowledge_provenance)
            ≡ false)
        × (((readiness.requires_partial_acknowledgement
                || readiness.requires_provenance_acknowledgement)
              && lacks_reason given.reason)
            ≡ false))
unfolding missing_publish_acknowledgement outstanding
missing_iff readiness given =
    let p = readiness.requires_partial_acknowledgement && not given.acknowledge_partial in
    let q = readiness.requires_provenance_acknowledgement && not given.acknowledge_provenance in
    let r =
      (readiness.requires_partial_acknowledgement || readiness.requires_provenance_acknowledgement)
      && lacks_reason given.reason in
    ground (
      arith,
      say_nil p partial_publish_message,
      say_nil q unconfirmed_source_publish_message,
      say_nil r reason_message,
      null_append (say_if p partial_publish_message ++ say_if q unconfirmed_source_publish_message)
          (say_if r reason_message),
      null_append (say_if p partial_publish_message) (say_if q unconfirmed_source_publish_message),
    )

null_iff : (warnings : List ProvenanceWarning) → (null warnings ≡ false) ↔ (warnings ≢ [])
null_iff [] = (λ h. absurd (cc), λ h. absurd (h refl))
null_iff (w ∷ ws) = (λ h e. absurd (cc), λ h. refl)

flags :
    (counters : RunCounters) (warnings : List ProvenanceWarning)
    → 0 < counters.visits_scheduled
    → (((publish_readiness counters warnings).requires_partial_acknowledgement ≡ true)
        ↔ IsPartial counters)
      × (((publish_readiness counters warnings).requires_provenance_acknowledgement ≡ true)
          ↔ (warnings ≢ []))
unfolding publish_readiness
flags counters [] h = (ground arith, (ground arith, λ k. absurd (k refl)))
flags counters (w ∷ ws) h = (ground arith, (λ k e. absurd (cc), λ k. ground arith))

-- Of a run with results, nothing is missing exactly when each gate that applies is answered: a
-- partial run is acknowledged as partial, unconfirmed source data as unconfirmed, and either of
-- them comes with a reason that is not blank. A satisfied gate never excuses another.
pub missing_publish_acknowledgement-IsAcknowledged :
    (counters : RunCounters) (warnings : List ProvenanceWarning) (given : Acknowledgement)
    → 0 < counters.visits_scheduled
    → (missing_publish_acknowledgement (publish_readiness counters warnings) given ≡ none)
      ↔ IsAcknowledged (IsPartial counters) (warnings ≢ []) given
missing_publish_acknowledgement-IsAcknowledged counters warnings given some_results =
    let readiness = publish_readiness counters warnings in
    let missing = missing_iff readiness given in
    let (partial, provenance) = flags counters warnings some_results in
    let reasoned = IsReason-iff given.reason in
    (
      λ h.
          let (p, q, r) = missing.0 h in
          record {
            partial = λ k. let needs = partial.1 k in ground (arith, p, needs);
            provenance = λ k. let needs = provenance.1 k in ground (arith, q, needs);
            has_reason = λ k. reasoned.0 (elim k [
              | inl a ↦ let needs = partial.1 a in ground (arith, r, needs)
              | inr b ↦ let needs = provenance.1 b in ground (arith, r, needs)
            ]);
          },
      λ h. missing.1 (
        elim (Bool-cases readiness.requires_partial_acknowledgement) [
          | inl t ↦ rw (t, h.partial (partial.0 t)) refl
          | inr f ↦ rw f refl
        ],
        elim (Bool-cases readiness.requires_provenance_acknowledgement) [
          | inl t ↦ rw (t, h.provenance (provenance.0 t)) refl
          | inr f ↦ rw f refl
        ],
        elim (Bool-cases readiness.requires_partial_acknowledgement) [
          | inl t ↦ rw (t, reasoned.1 (h.has_reason (inl (partial.0 t)))) refl
          | inr f ↦ elim (Bool-cases readiness.requires_provenance_acknowledgement) [
            | inl t ↦ rw (t, reasoned.1 (h.has_reason (inr (provenance.0 t)))) (ground arith)
            | inr g ↦ rw (f, g) refl
          ]
        ],
      ),
    )

-- A run is blocked exactly when it scheduled nothing, and ready exactly when it scheduled something,
-- left nothing unassigned and carries no warning; whatever else needs an acknowledgement.
pub publish_readiness-state :
    (counters : RunCounters) (warnings : List ProvenanceWarning)
    → (((publish_readiness counters warnings).state ≡ blocked) ↔ (counters.visits_scheduled ≡ 0))
      × (((publish_readiness counters warnings).state ≡ ready)
          ↔ ((0 < counters.visits_scheduled) × (¬ IsPartial counters) × (warnings ≡ [])))
unfolding publish_readiness
publish_readiness-state counters [] = ground arith
publish_readiness-state counters (w ∷ ws) = ground arith
