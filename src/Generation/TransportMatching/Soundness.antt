-- ===== src/Generation/TransportMatching/Soundness.antt =====
-- apps/api/src/scheduling/visit-generation/transport-matching.ts: what a search does to the map, and
-- that the number of the loop is the size of a real assignment.
use ultrakil_scheduling_syst.Prelude.{
  ℕ, zero, suc, ◌+◌, ◌≤◌, ◌≡◌, refl, ◌∙◌, ap, inl, inr, true, false, Option, none, some, List, [],
  ◌∷◌, String, string_eq, nat_eq, ◌==◌, if◌then◌else◌, has, add, has-add, lookup, insert,
  lookup-insert, length, In, All, All-of_In, ltb, Bool-cases, beq_refl, arith,
}
use ultrakil_scheduling_syst.Generation.TransportMatching.{
  Matched, Search, eligible, release, try_people, augment_from, search_fuel, Matching, match_from,
  matching_of,
}
use ultrakil_scheduling_syst.Generation.TransportMatching.Counting.{
  held, holds, hit, held-insert_absent, held-insert_present, length-insert_absent,
  length-insert_present, holds-insert, All-insert,
}

-- Every person holds a resource that the person is eligible for, and one at most.
pub record IsMatching (resources : List (List String)) (matched : Matched) : Type 0 where
  pub are_eligible : All (λ entry. In entry.0 (eligible resources entry.1)) matched
  pub are_distinct : (person : String) → holds person matched ≤ 1

-- A full assignment, with its size.
pub record IsAssignment (resources : List (List String)) (matching : Matching) : Type 0 where
  pub is_matching : IsMatching resources matching.assigned
  pub has_one : (x : ℕ) → held x matching.assigned ≤ 1
  pub is_counted : matching.count ≡ length matching.assigned

-- A search either fails and leaves the map, or gives the resource one person more and keeps every
-- other resource's number; people seen before keep what they hold, and stay seen.
pub record IsSound (resources : List (List String)) (matched : Matched) (seen : List String)
    (index : ℕ) (search : Search) : Type 0 where
  pub fails : search.found ≡ false → search.matched ≡ matched
  pub gains : search.found ≡ true → (x : ℕ) → held x search.matched ≡ held x matched + hit index x
  pub grows : search.found ≡ true → length search.matched ≡ suc (length matched)
  pub keeps : (p : String) → has p seen ≡ true → lookup p search.matched ≡ lookup p matched
  pub sees : (p : String) → has p seen ≡ true → has p search.seen ≡ true
  pub matches : IsMatching resources matched → IsMatching resources search.matched

module _ (resources : List (List String)) where
  IsMatching-insert :
      (matched : Matched) (person : String) (index : ℕ)
      → In person (eligible resources index)
      → IsMatching resources matched
      → IsMatching resources (insert person index matched)
  IsMatching-insert matched person index m h = record {
    are_eligible =
        All-insert (λ entry. In entry.0 (eligible resources entry.1)) index person matched m
          h.are_eligible;
    are_distinct = λ who. holds-insert who index person matched (h.are_distinct who);
  }

  nothing_found :
      (matched : Matched) (seen : List String) (index : ℕ)
      → IsSound resources matched seen index
          (record { found = false; matched = matched; seen = seen })
  nothing_found matched seen index = record {
    fails = λ e. refl;
    gains = λ e. absurd (cc);
    grows = λ e. absurd (cc);
    keeps = λ p h. refl;
    sees = λ p h. h;
    matches = λ h. h;
  }

  module _ (augment : Matched → List String → ℕ → Search)
      (sound : (m : Matched) (s : List String) (i : ℕ)
        → IsSound resources m s i (augment m s i)) where
    has_added :
        (person p : String) (seen : List String)
        → has p seen ≡ true
        → has p (add person seen) ≡ true
    has_added person p seen h = rw (has-add person p seen, h) refl

    has_self : (person : String) (seen : List String) → has person (add person seen) ≡ true
    has_self person seen = ground (arith, has-add person person seen, beq_refl person)

    other_person :
        (person p : String) (seen : List String)
        → has person seen ≡ false
        → has p seen ≡ true
        → (person == p) ≡ false
    other_person person p seen out within = elim (Bool-cases (person == p)) [
      | inl t ↦ absurd (
          let same : person ≡ p = (string_eq.beq_iff person p).0 t in
          let here : has p seen ≡ false = rw same at out in cc)
      | inr f ↦ f
    ]

    keeps_other :
        (matched : Matched) (person p : String) (index : ℕ) (seen : List String)
        → has person seen ≡ false
        → has p seen ≡ true
        → lookup p (insert person index matched) ≡ lookup p matched
    keeps_other matched person p index seen out within =
        rw (lookup-insert person p index matched, other_person person p seen out within) refl

    -- The person takes the resource, after what they held found somebody else.
    taken :
        (matched : Matched) (seen : List String) (person : String) (index : ℕ) (o : Option ℕ)
        → lookup person matched ≡ o
        → has person seen ≡ false
        → In person (eligible resources index)
        → (release augment matched (add person seen) o).found ≡ true
        → IsSound resources matched seen index (record {
          found = true;
          matched = insert person index (release augment matched (add person seen) o).matched;
          seen = (release augment matched (add person seen) o).seen;
        })
    taken matched seen person index none e unseen able found = record {
      fails = λ h. absurd (cc);
      gains = λ h x. held-insert_absent x index person matched e;
      grows = λ h. length-insert_absent index person matched e;
      keeps = λ p h. keeps_other matched person p index seen unseen h;
      sees = λ p h. has_added person p seen h;
      matches = λ h. IsMatching-insert matched person index able h;
    }
    taken matched seen person index (some holder) e unseen able found =
        let inner = augment matched (add person seen) holder in
        let rest = sound matched (add person seen) holder in
        let still : lookup person inner.matched ≡ some holder =
          rest.keeps person (has_self person seen) ∙ e in
        record {
          fails = λ h. absurd (cc);
          gains = λ h x. omega (
            arith,
            held-insert_present x index holder person inner.matched still,
            rest.gains found x,
          );
          grows =
              λ h. length-insert_present index holder person inner.matched still ∙ rest.grows found;
          keeps = λ p h.
              keeps_other inner.matched person p index seen unseen h
              ∙ rest.keeps p (has_added person p seen h);
          sees = λ p h. rest.sees p (has_added person p seen h);
          matches = λ h. IsMatching-insert inner.matched person index able (rest.matches h);
        }

    -- An attempt that fails leaves the map and only adds to the people seen.
    not_taken :
        (matched : Matched) (seen : List String) (person : String) (o : Option ℕ)
        → (release augment matched (add person seen) o).found ≡ false
        → ((release augment matched (add person seen) o).matched ≡ matched)
          × ((p : String)
              → has p seen ≡ true
              → has p (release augment matched (add person seen) o).seen ≡ true)
    not_taken matched seen person none f = absurd (cc)
    not_taken matched seen person (some holder) f =
        let rest = sound matched (add person seen) holder in
        (rest.fails f, λ p h. rest.sees p (has_added person p seen h))

    later :
        (matched : Matched) (seen : List String) (after : Search) (index : ℕ) (search : Search)
        → after.matched ≡ matched
        → ((p : String) → has p seen ≡ true → has p after.seen ≡ true)
        → IsSound resources after.matched after.seen index search
        → IsSound resources matched seen index search
    later matched seen after index search same more h = record {
      fails = λ f. h.fails f ∙ same;
      gains = λ t x. h.gains t x ∙ ap (λ m. held x m + hit index x) same;
      grows = λ t. h.grows t ∙ ap (λ m. suc (length m)) same;
      keeps = λ p q. h.keeps p (more p q) ∙ ap (lookup p) same;
      sees = λ p q. h.sees p (more p q);
      matches = λ k. h.matches (rw same k);
    }

    try_people-IsSound :
        (index : ℕ) (people : List String)
        → All (λ p. In p (eligible resources index)) people
        → (matched : Matched) (seen : List String)
        → IsSound resources matched seen index (try_people augment index people matched seen)
    unfolding try_people
    try_people-IsSound index [] able matched seen = nothing_found matched seen index
    try_people-IsSound index (person ∷ people) able matched seen =
        elim (Bool-cases (has person seen)) [
          | inl t ↦ rw (try_people, t) (try_people-IsSound index people able.1 matched seen)
          | inr f ↦
              let attempt : Search =
                release augment matched (add person seen) (lookup person matched) in
              rw (try_people, f)
                (elim (Bool-cases attempt.found) [
                  | inl t ↦
                      rw t (taken matched seen person index (lookup person matched) refl f able.0 t)
                  | inr g ↦
                      let (same, more) = not_taken matched seen person (lookup person matched) g in
                      rw g (
                        later matched seen attempt index
                          (try_people augment index people attempt.matched attempt.seen) same more
                          (try_people-IsSound index people able.1 attempt.matched attempt.seen))
                ])
        ]

  pub augment_from-IsSound :
      (fuel : ℕ) (matched : Matched) (seen : List String) (index : ℕ)
      → IsSound resources matched seen index (augment_from fuel resources matched seen index)
  unfolding augment_from
  augment_from-IsSound zero matched seen index = nothing_found matched seen index
  augment_from-IsSound (suc fuel) matched seen index =
      try_people-IsSound (augment_from fuel resources) (augment_from-IsSound fuel) index
        (eligible resources index) (All-of_In _ (eligible resources index) (λ p m. m)) matched seen

  -- The resources before `index` have at most one person, those from it on have none.
  record IsBefore (index : ℕ) (matching : Matching) : Type 0 where
    is_matching : IsMatching resources matching.assigned
    has_one : (x : ℕ) → held x matching.assigned ≤ (if ltb x index then 1 else 0)
    is_counted : matching.count ≡ length matching.assigned

  searched :
      (index : ℕ) (matching : Matching) (search : Search)
      → IsSound resources matching.assigned [] index search
      → IsBefore index matching
      → IsBefore (suc index) (record {
        assigned = search.matched;
        count = if search.found then matching.count + 1 else matching.count;
      })
  searched index matching search sound h = elim (Bool-cases search.found) [
    | inl t ↦ rw t (record {
      is_matching = sound.matches h.is_matching;
      has_one =
          λ x. let bound = h.has_one x in let gain = sound.gains t x in ground (arith, bound, gain);
      is_counted = omega (arith, h.is_counted, sound.grows t);
    })
    | inr f ↦
        let same : search.matched ≡ matching.assigned = sound.fails f in
        rw (f, same)
          (record {
            is_matching = h.is_matching;
            has_one = λ x. let bound = h.has_one x in ground (arith, bound);
            is_counted = h.is_counted;
          })
  ]

  match_from-IsAssignment :
      (index : ℕ) (rest : List (List String)) (matching : Matching)
      → IsBefore index matching
      → IsAssignment resources (match_from resources index rest matching)
  unfolding match_from
  match_from-IsAssignment index [] matching h = record {
    is_matching = h.is_matching;
    has_one = λ x. let bound = h.has_one x in ground (arith, bound);
    is_counted = h.is_counted;
  }
  match_from-IsAssignment index (people ∷ rest) matching h =
      match_from-IsAssignment (suc index) rest _ (
        searched index matching
          (augment_from (search_fuel resources) resources matching.assigned [] index)
          (augment_from-IsSound (search_fuel resources) matching.assigned [] index) h)

-- The number that the loop returns is the size of a real assignment: that many people hold a
-- resource each, every one eligible for it, no person holds two and no resource has two.
pub matching_of-IsAssignment :
    (resources : List (List String)) → IsAssignment resources (matching_of resources)
unfolding matching_of
matching_of-IsAssignment resources =
    match_from-IsAssignment resources 0 resources (record { assigned = []; count = 0 })
      (record {
        is_matching = record { are_eligible = tt; are_distinct = λ p. omega arith };
        has_one = λ x. ground arith;
        is_counted = refl;
      })
