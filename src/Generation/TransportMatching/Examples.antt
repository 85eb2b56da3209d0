-- ===== src/Generation/TransportMatching/Examples.antt =====
-- Two vehicles that share a driver, where the first gives its driver up for the second.
use ultrakil_scheduling_syst.Prelude.{
  ◌+◌, ◌≡◌, refl, List, [], ◌∷◌, String, string_eq, has, add, lookup, insert,
}
use ultrakil_scheduling_syst.Generation.TransportMatching.{
  try_people, augment_from, people_of, search_fuel, match_from, matching_of, max_bipartite_matching,
}
use ultrakil_scheduling_syst.Generation.TransportMatching.Soundness.{
  IsAssignment, matching_of-IsAssignment,
}
use ultrakil_scheduling_syst.Generation.TransportMatching.Fuel.{augment_from_fuel}

abbrev vehicles : List (List String)
vehicles = ("ann" ∷ "ben" ∷ []) ∷ ("ann" ∷ []) ∷ ("ann" ∷ "ben" ∷ []) ∷ []

test_vehicles : max_bipartite_matching vehicles ≡ 2
unfolding max_bipartite_matching matching_of match_from augment_from try_people people_of has add
    lookup insert
test_vehicles = refl

matching_of-IsAssignment_example : IsAssignment vehicles (matching_of vehicles)
matching_of-IsAssignment_example = matching_of-IsAssignment vehicles

augment_from_fuel_example :
    augment_from (search_fuel vehicles + 3) vehicles (("ann", 0) ∷ []) [] 1
    ≡ augment_from (search_fuel vehicles) vehicles (("ann", 0) ∷ []) [] 1
augment_from_fuel_example = augment_from_fuel vehicles 3 (("ann", 0) ∷ []) 1
