-- ===== src/Generation/TransportMatching.antt =====
-- apps/api/src/scheduling/visit-generation/transport-matching.ts: augmenting paths. A search
-- returns whether it found a person, the map of the matched resources, and the people seen, which
-- the source passes by reference. The recursion is on fuel, one unit for each unseen person.
use ultrakil_scheduling_syst.Prelude.{
  ℕ, zero, suc, ◌+◌, Bool, true, false, not, Option, none, some, List, [], ◌∷◌, ◌++◌, String,
  string_eq, if◌then◌else◌, has, add, lookup, insert, get_elem?, get_or_else, length,
}
pub mod Counting
pub mod Soundness
pub mod Fuel
pub mod Examples

-- Person to resource index.
abbrev pub Matched : Type 0
Matched = List (String × ℕ)

pub record Search : Type 0 where
  pub found : Bool
  pub matched : Matched
  pub seen : List String

abbrev pub eligible : List (List String) → ℕ → List String
eligible resources index = get_or_else (get_elem? resources index) []

-- A person who holds nothing is free; a holder's resource needs somebody else first.
abbrev pub release :
    (Matched → List String → ℕ → Search) → Matched → List String → Option ℕ → Search
release augment matched seen none = record { found = true; matched = matched; seen = seen }
release augment matched seen (some holder) = augment matched seen holder

-- The loop over the people of a resource, given the recursive call.
unfoldable pub try_people :
    (Matched → List String → ℕ → Search) → ℕ → List String → Matched → List String → Search
try_people augment index [] matched seen = record { found = false; matched = matched; seen = seen }
try_people augment index (person ∷ people) matched seen = elim (has person seen) [
  | true ↦ try_people augment index people matched seen
  | false ↦
      let attempt : Search = release augment matched (add person seen) (lookup person matched) in
      elim attempt.found [
        | true ↦ record {
          found = true;
          matched = insert person index attempt.matched;
          seen = attempt.seen;
        }
        | false ↦ try_people augment index people attempt.matched attempt.seen
      ]
]

unfoldable pub augment_from : ℕ → List (List String) → Matched → List String → ℕ → Search
augment_from zero resources matched seen index = record {
  found = false;
  matched = matched;
  seen = seen;
}
augment_from (suc fuel) resources matched seen index =
    try_people (augment_from fuel resources) index (eligible resources index) matched seen

unfoldable pub people_of : List (List String) → List String
people_of [] = []
people_of (people ∷ resources) = people ++ people_of resources

abbrev pub search_fuel : List (List String) → ℕ
search_fuel resources = suc (length (people_of resources))

pub record Matching : Type 0 where
  pub assigned : Matched
  pub count : ℕ

-- The loop over the resources, from `index` on.
unfoldable pub match_from : List (List String) → ℕ → List (List String) → Matching → Matching
match_from resources index [] matching = matching
match_from resources index (people ∷ rest) matching =
    let search : Search =
      augment_from (search_fuel resources) resources matching.assigned [] index in
    match_from resources (suc index) rest (record {
      assigned = search.matched;
      count = if search.found then matching.count + 1 else matching.count;
    })

unfoldable pub matching_of : List (List String) → Matching
matching_of resources = match_from resources 0 resources (record { assigned = []; count = 0 })

unfoldable pub max_bipartite_matching : List (List String) → ℕ
max_bipartite_matching resources = (matching_of resources).count
