-- ===== src/Generation/TransportMatching/Fuel.antt =====
-- apps/api/src/scheduling/visit-generation/transport-matching.ts: the fuel of a search is enough.
use ultrakil_scheduling_syst.Prelude.{
  ℕ, zero, suc, ◌+◌, ◌≤◌, ◌<◌, ◌≡◌, refl, sym, ◌∙◌, ap, inl, inr, true, false, not, Option, none,
  some, List, [], ◌∷◌, String, string_eq, has, add, has-add, lookup, insert, length, count_of, In,
  All, All-of_In, Any-append_left, Any-append_right, Bool-cases, beq_refl, arith,
}
use ultrakil_scheduling_syst.Generation.TransportMatching.{
  Matched, Search, eligible, release, try_people, augment_from, people_of, search_fuel,
}
use ultrakil_scheduling_syst.Generation.TransportMatching.Soundness.{IsSound, augment_from-IsSound}

unseen_of : List String → List String → ℕ
unseen_of people seen = count_of (λ p. not (has p seen)) people

unseen_of-le :
    (people s t : List String)
    → ((p : String) → has p s ≡ true → has p t ≡ true)
    → unseen_of people t ≤ unseen_of people s
unfolding unseen_of
unseen_of-le [] s t h = omega arith
unseen_of-le (p ∷ people) s t h = ground (arith, unseen_of-le people s t h, h p)

unseen_of-lt :
    (people s t : List String) (person : String)
    → In person people
    → has person s ≡ false
    → has person t ≡ true
    → ((p : String) → has p s ≡ true → has p t ≡ true)
    → unseen_of people t < unseen_of people s
unfolding unseen_of
unseen_of-lt [] s t person m out within h = absurd m
unseen_of-lt (p ∷ people) s t person (inl e) out within h =
    let was : has p s ≡ false = rw e out in
    let is : has p t ≡ true = rw e within in ground (arith, unseen_of-le people s t h, was, is)
unseen_of-lt (p ∷ people) s t person (inr m) out within h =
    ground (arith, unseen_of-lt people s t person m out within h, h p)

unseen_of-length : (people : List String) → unseen_of people [] ≡ length people
unfolding unseen_of has
unseen_of-length [] = refl
unseen_of-length (p ∷ people) = omega (arith, unseen_of-length people)

eligible-In :
    (resources : List (List String)) (index : ℕ) (p : String)
    → In p (eligible resources index)
    → In p (people_of resources)
unfolding people_of
eligible-In [] index p m = absurd m
eligible-In (people ∷ resources) zero p m = Any-append_left _ people (people_of resources) m
eligible-In (people ∷ resources) (suc index) p m =
    Any-append_right _ people (people_of resources) (eligible-In resources index p m)

abbrev took : ℕ → String → Search → Search
took index person attempt = record {
  found = true;
  matched = insert person index attempt.matched;
  seen = attempt.seen;
}

module _ (resources : List (List String)) where
  abbrev unseen : List String → ℕ
  unseen seen = unseen_of (people_of resources) seen

  module _ (bound : ℕ) (f g : Matched → List String → ℕ → Search)
      (sound : (m : Matched) (s : List String) (i : ℕ) → IsSound resources m s i (f m s i))
      (agree : (m : Matched) (s : List String) (i : ℕ) → unseen s < bound → f m s i ≡ g m s i) where
    released :
        (matched : Matched) (seen : List String) (o : Option ℕ)
        → unseen seen < bound
        → release f matched seen o ≡ release g matched seen o
    released matched seen none h = refl
    released matched seen (some holder) h = agree matched seen holder h

    released_sees :
        (matched : Matched) (seen : List String) (o : Option ℕ) (p : String)
        → has p seen ≡ true
        → has p (release f matched seen o).seen ≡ true
    released_sees matched seen none p h = h
    released_sees matched seen (some holder) p h = (sound matched seen holder).sees p h

    -- Two searches that agree wherever fewer people are unseen make the same loop.
    try_people_agree :
        (index : ℕ) (people : List String)
        → All (λ p. In p (people_of resources)) people
        → (matched : Matched) (seen : List String) → unseen seen ≤ bound
        → try_people f index people matched seen ≡ try_people g index people matched seen
    unfolding try_people
    try_people_agree index [] able matched seen h = refl
    try_people_agree index (person ∷ people) able matched seen h =
        elim (Bool-cases (has person seen)) [
          | inl t ↦ rw (try_people, t) (try_people_agree index people able.1 matched seen h)
          | inr n ↦
              let more : (p : String) → has p seen ≡ true → has p (add person seen) ≡ true =
                λ p k. rw (has-add person p seen, k) refl in
              let own : has person (add person seen) ≡ true =
                ground (arith, has-add person person seen, beq_refl person) in
              let fewer =
                unseen_of-lt (people_of resources) seen (add person seen) person able.0 n own
                  more in
              let attempt : Search = release f matched (add person seen) (lookup person matched) in
              let same =
                released matched (add person seen) (lookup person matched) (omega (arith, fewer)) in
              let seen_on =
                unseen_of-le (people_of resources) (add person seen) attempt.seen
                  (released_sees matched (add person seen) (lookup person matched)) in
              rw (try_people, n, ← same)
                (elim (Bool-cases attempt.found) [
                  | inl t ↦ rw t (ap (took index person) same)
                  | inr k ↦ rw k (
                      try_people_agree index people able.1 attempt.matched attempt.seen
                        (omega (arith, fewer, seen_on))
                      ∙ ap (λ a. try_people g index people a.matched a.seen) same)
                ])
        ]

  -- One more unit of fuel changes nothing while there is one for each unseen person.
  augment_from_stable :
      (fuel : ℕ) (matched : Matched) (seen : List String) (index : ℕ)
      → unseen seen < fuel
      → augment_from fuel resources matched seen index
        ≡ augment_from (suc fuel) resources matched seen index
  unfolding augment_from
  augment_from_stable zero matched seen index h = absurd (omega arith)
  augment_from_stable (suc fuel) matched seen index h =
      try_people_agree fuel (augment_from fuel resources) (augment_from (suc fuel) resources)
        (augment_from-IsSound resources fuel) (augment_from_stable fuel) index
        (eligible resources index)
        (All-of_In _ (eligible resources index) (eligible-In resources index)) matched seen
        (omega arith)

  -- A search that starts with nobody seen never runs out of fuel: every larger amount of fuel gives
  -- the same search.
  pub augment_from_fuel :
      (more : ℕ) (matched : Matched) (index : ℕ)
      → augment_from (search_fuel resources + more) resources matched [] index
        ≡ augment_from (search_fuel resources) resources matched [] index
  augment_from_fuel zero matched index =
      let sum : search_fuel resources + 0 ≡ search_fuel resources = omega arith in
      ap (λ n. augment_from n resources matched [] index) sum
  augment_from_fuel (suc more) matched index =
      let sum : search_fuel resources + suc more ≡ suc (search_fuel resources + more) =
        omega arith in
      ap (λ n. augment_from n resources matched [] index) sum
      ∙ sym (
          augment_from_stable (search_fuel resources + more) matched [] index
            (omega (arith, unseen_of-length (people_of resources))))
      ∙ augment_from_fuel more matched index
