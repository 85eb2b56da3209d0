-- ===== src/Generation/TransportMatching/Counting.antt =====
-- How often a person and a resource stand in a map of matched resources, and what `Map.set` does to
-- it.
use ultrakil_scheduling_syst.Prelude.{
  ℕ, suc, ◌+◌, ◌≤◌, max, ◌≡◌, refl, inl, inr, false, none, some, [], ◌∷◌, String, string_eq, nat_eq,
  ◌==◌, if◌then◌else◌, lookup, insert, length, count_of, All, Bool-cases, arith,
}
use ultrakil_scheduling_syst.Generation.TransportMatching.{Matched}

abbrev pub held : ℕ → Matched → ℕ
held index = count_of (λ entry. entry.1 == index)

abbrev pub holds : String → Matched → ℕ
holds person = count_of (λ entry. entry.0 == person)

abbrev pub hit : ℕ → ℕ → ℕ
hit a b = if a == b then 1 else 0

-- Setting a person who is absent adds an entry.
pub held-insert_absent :
    (x index : ℕ) (person : String) (matched : Matched)
    → lookup person matched ≡ none
    → held x (insert person index matched) ≡ held x matched + hit index x
unfolding lookup insert
held-insert_absent x index person [] h = omega arith
held-insert_absent x index person ((p, i) ∷ matched) h = elim (Bool-cases (p == person)) [
  | inl t ↦ absurd (let k = rw t at h in cc)
  | inr f ↦ rw f (omega (arith, held-insert_absent x index person matched (rw f at h)))
]

-- Setting a person who is there takes the old resource away.
pub held-insert_present :
    (x index old : ℕ) (person : String) (matched : Matched)
    → lookup person matched ≡ some old
    → held x (insert person index matched) + hit old x ≡ held x matched + hit index x
unfolding lookup insert
held-insert_present x index old person [] h = absurd (cc)
held-insert_present x index old person ((p, i) ∷ matched) h = elim (Bool-cases (p == person)) [
  | inl t ↦
      let e : some i ≡ some old = rw t at h in let same : i ≡ old = cc in rw (t, same) (omega arith)
  | inr f ↦ rw f (omega (arith, held-insert_present x index old person matched (rw f at h)))
]

pub length-insert_absent :
    (index : ℕ) (person : String) (matched : Matched)
    → lookup person matched ≡ none
    → length (insert person index matched) ≡ suc (length matched)
unfolding lookup insert
length-insert_absent index person [] h = refl
length-insert_absent index person ((p, i) ∷ matched) h = elim (Bool-cases (p == person)) [
  | inl t ↦ absurd (let k = rw t at h in cc)
  | inr f ↦ rw f (omega (arith, length-insert_absent index person matched (rw f at h)))
]

pub length-insert_present :
    (index old : ℕ) (person : String) (matched : Matched)
    → lookup person matched ≡ some old
    → length (insert person index matched) ≡ length matched
unfolding lookup insert
length-insert_present index old person [] h = absurd (cc)
length-insert_present index old person ((p, i) ∷ matched) h = elim (Bool-cases (p == person)) [
  | inl t ↦ rw t refl
  | inr f ↦ rw f (omega (arith, length-insert_present index old person matched (rw f at h)))
]

-- A person who is set is held once if absent before, and nobody else is held more or less often.
holds-insert_person :
    (who : String) (index : ℕ) (person : String) (matched : Matched)
    → holds who (insert person index matched)
      ≡ (if person == who then max 1 (holds who matched) else holds who matched)
unfolding insert
holds-insert_person who index person [] = ground arith
holds-insert_person who index person ((p, i) ∷ matched) =
    let later = holds-insert_person who index person matched in
    elim (Bool-cases (p == person)) [
      | inl t ↦
          let same : p ≡ person = (string_eq.beq_iff p person).0 t in
          rw (t, same)
            (elim (Bool-cases (person == who)) [ inl u ↦ rw u (omega arith) | inr g ↦ rw g refl ])
      | inr f ↦ rw f (elim (Bool-cases (person == who)) [
        | inl u ↦
            let here : person ≡ who = (string_eq.beq_iff person who).0 u in
            let there : (p == who) ≡ false = rw here at f in
            rw (u, there) (omega (arith, rw u at later))
        | inr g ↦ rw g (omega (arith, rw g at later))
      ])
    ]

pub holds-insert :
    (who : String) (index : ℕ) (person : String) (matched : Matched)
    → holds who matched ≤ 1
    → holds who (insert person index matched) ≤ 1
holds-insert who index person matched h =
    ground (arith, holds-insert_person who index person matched)

pub All-insert :
    (P : String × ℕ → Type 0) (index : ℕ) (person : String) (matched : Matched)
    → P (person, index)
    → All P matched
    → All P (insert person index matched)
unfolding insert
All-insert P index person [] h hs = (h, tt)
All-insert P index person ((p, i) ∷ matched) h hs = elim (Bool-cases (p == person)) [
  | inl t ↦ let same : p ≡ person = (string_eq.beq_iff p person).0 t in rw (t, same) (h, hs.1)
  | inr f ↦ rw f (hs.0, All-insert P index person matched h hs.1)
]
