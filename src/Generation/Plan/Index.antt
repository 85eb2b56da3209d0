-- ===== src/Generation/Plan/Index.antt =====
-- `existingByKey` of `planGeneration`: what a lookup in the index finds.
use ultrakil_scheduling_syst.Prelude.{
  ◌≡◌, refl, ◌⊎◌, inl, inr, Bool, true, ◌||◌, some, List, [], ◌∷◌, arith, ◌==◌, nat_eq, string_eq,
  pair_eq, is_some, some_of, In, lookup, insert, lookup-insert, Bool-cases,
}
use ultrakil_scheduling_syst.Generation.Requirement.{ExistingVisit}
use ultrakil_scheduling_syst.Generation.Plan.{Key, key_of_existing, index_existing}

abbrev pub has_key : Key → ExistingVisit → Bool
has_key key visit = key_of_existing visit == key

module _ (key : Key) where
  pub lookup-index_existing :
      (visits : List ExistingVisit) (m : List (Key × ExistingVisit)) (found : ExistingVisit)
      → lookup key (index_existing visits m) ≡ some found
      → In found visits × (key_of_existing found ≡ key) ⊎ (lookup key m ≡ some found)
  unfolding index_existing
  lookup-index_existing [] m found h = inr h
  lookup-index_existing (visit ∷ visits) m found h =
      elim (lookup-index_existing visits (insert (key_of_existing visit) visit m) found h) [
        | inl (within, same) ↦ inl (inr within, same)
        | inr e ↦ elim (Bool-cases (key_of_existing visit == key)) [
          | inl t ↦ here t (rw (lookup-insert (key_of_existing visit) key visit m, t) at e)
          | inr f ↦ inr (rw (lookup-insert (key_of_existing visit) key visit m, f) at e)
        ]
      ]
    where
      here :
          has_key key visit ≡ true
          → some visit ≡ some found
          → In found (visit ∷ visits) × (key_of_existing found ≡ key) ⊎ (lookup key m ≡ some found)
      here t e =
          let same : visit ≡ found = cc in
          inl (inl same, rw (← same) ((pair_eq.beq_iff (key_of_existing visit) key).0 t))

  pub is_some-lookup-index_existing :
      (visits : List ExistingVisit) (m : List (Key × ExistingVisit))
      → is_some (lookup key (index_existing visits m))
        ≡ (some_of (has_key key) visits || is_some (lookup key m))
  unfolding index_existing
  is_some-lookup-index_existing [] m = refl
  is_some-lookup-index_existing (visit ∷ visits) m = ground (
    arith,
    is_some-lookup-index_existing visits (insert (key_of_existing visit) visit m),
    lookup-insert (key_of_existing visit) key visit m,
  )
