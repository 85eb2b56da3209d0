-- ===== src/Generation/Plan/Matched.antt =====
-- Which visits of the calendar the loop over the requirements matched.
use ultrakil_scheduling_syst.Prelude.{
  ◌≡◌, refl, Bool, false, none, some, List, [], ◌∷◌, arith, nat_eq, string_eq, pair_eq, lookup,
  String, has, ◌||◌, some_of, ◌==◌,
}
use ultrakil_scheduling_syst.Generation.Requirement.{RequiredVisit, ExistingVisit}
use ultrakil_scheduling_syst.Generation.Plan.{
  Key, key_of_required, index_existing, Progress, compare_step, compare_required,
}

-- A requirement was matched to the visit: its slot finds a visit of this id.
abbrev pub answers : List RequiredVisit → List ExistingVisit → ExistingVisit → Bool
answers required existing visit =
    some_of
      (λ want. elim (lookup (key_of_required want) (index_existing existing [])) [
        | some found ↦ found.id == visit.id
        | none ↦ false
      ])
      required

pub has-matched_ids :
    (by_key : List (Key × ExistingVisit)) (wants : List RequiredVisit) (progress : Progress)
    (id : String)
    → has id (compare_required by_key wants progress).matched_ids ≡ (
        some_of
          (λ want. elim (lookup (key_of_required want) by_key) [
            | some found ↦ found.id == id
            | none ↦ false
          ])
          wants
        || has id progress.matched_ids)
unfolding compare_required compare_step has
has-matched_ids by_key [] progress id = refl
has-matched_ids by_key (want ∷ wants) progress id =
    let found = lookup (key_of_required want) by_key in
    ground (arith, has-matched_ids by_key wants (compare_step found progress want) id)
