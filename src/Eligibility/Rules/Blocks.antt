-- ===== src/Eligibility/Rules/Blocks.antt =====
-- When a block of `evaluateAssignment` pushes nothing: the conditions of the blocks, and their sum.
use ultrakil_scheduling_syst.Prelude.{
  ◌≡◌, refl, ◌↔◌, inl, inr, Bool, true, false, Option, none, some, List, [], ◌∷◌, ◌++◌, find, null,
  filter, All, arith, Bool-cases, All-map, length,
}
use ultrakil_scheduling_syst.Eligibility.Conflicts.{Conflict}
use ultrakil_scheduling_syst.Eligibility.Facts.{BusyPeriod}
use ultrakil_scheduling_syst.Eligibility.Rules.Visit.{when}
use ultrakil_scheduling_syst.Eligibility.Rules.Crew.{when_found}

append_nil :
    {P Q : Type 0} (xs ys : List Conflict)
    → (xs ≡ []) ↔ P
    → (ys ≡ []) ↔ Q
    → (xs ++ ys ≡ []) ↔ (P × Q)
append_nil [] ys p q = (λ h. (p.0 refl, q.0 h), λ h. q.1 h.1)
append_nil (x ∷ xs) ys p q = (λ h. absurd (cc), λ h. absurd (let e = p.1 h.0 in cc))

-- Two blocks push nothing when neither does: chained, the conditions of a sum of blocks.
infixl 65 ◌⊕◌
pub ◌⊕◌ :
    {P Q : Type 0} {xs ys : List Conflict}
    → (xs ≡ []) ↔ P
    → (ys ≡ []) ↔ Q
    → (xs ++ ys ≡ []) ↔ (P × Q)
◌⊕◌ {xs = xs} {ys = ys} p q = append_nil xs ys p q

pub when_nil : {P : Type 0} (b : Bool) (c : Conflict) → (b ≡ false) ↔ P → (when b c ≡ []) ↔ P
when_nil true c p = (λ h. absurd (cc), λ h. absurd (let e = p.1 h in cc))
when_nil false c p = (λ h. p.0 refl, λ h. refl)

module _ {A : Type 0} where
  pub find_nil : (p : A → Bool) (xs : List A) → (find p xs ≡ none) ↔ All (λ x. p x ≡ false) xs
  find_nil p [] = (λ h. tt, λ h. refl)
  find_nil p (x ∷ xs) = elim (Bool-cases (p x)) [
    | inl t ↦ (λ h. absurd (ground arith), λ h. absurd (let e = h.0 in cc))
    | inr f ↦ (λ h. (f, (find_nil p xs).0 (rw f at h)), λ h. rw f ((find_nil p xs).1 h.1))
  ]

  pub filter_nil :
      (p : A → Bool) (xs : List A) → (null (filter p xs) ≡ true) ↔ All (λ x. p x ≡ false) xs
  filter_nil p [] = (λ h. tt, λ h. refl)
  filter_nil p (x ∷ xs) = elim (Bool-cases (p x)) [
    | inl t ↦ (λ h. absurd (ground arith), λ h. absurd (let e = h.0 in cc))
    | inr f ↦ (λ h. (f, (filter_nil p xs).0 (rw f at h)), λ h. rw f ((filter_nil p xs).1 h.1))
  ]

pub found_nil :
    (p : BusyPeriod → Bool) (busy : List BusyPeriod) (c : BusyPeriod → Conflict)
    → (when_found (find p busy) c ≡ []) ↔ All (λ period. p period ≡ false) busy
found_nil p busy c = found (find p busy) c (find_nil p busy)
  where
    found :
        {P : Type 0} (o : Option BusyPeriod) (k : BusyPeriod → Conflict)
        → (o ≡ none) ↔ P
        → (when_found o k ≡ []) ↔ P
    found none k q = (λ h. q.0 refl, λ h. refl)
    found (some b) k q = (λ h. absurd (cc), λ h. absurd (let e = q.1 h in cc))

pub iff_trans : {P Q R : Type 0} → P ↔ Q → Q ↔ R → P ↔ R
iff_trans f g = (λ p. g.0 (f.0 p), λ r. f.1 (g.1 r))

module _ {A : Type 0} where
  pub null_of_length : (xs ys : List A) → length xs ≡ length ys → null xs ≡ null ys
  null_of_length [] [] e = refl
  null_of_length [] (y ∷ ys) e = absurd (omega arith)
  null_of_length (x ∷ xs) [] e = absurd (omega arith)
  null_of_length (x ∷ xs) (y ∷ ys) e = refl

  pub All-iff : {P Q : A → Type 0} → ((a : A) → P a ↔ Q a) → (xs : List A) → All P xs ↔ All Q xs
  All-iff {P} {Q} f xs = (All-map P Q (λ a. (f a).0) xs, All-map Q P (λ a. (f a).1) xs)
