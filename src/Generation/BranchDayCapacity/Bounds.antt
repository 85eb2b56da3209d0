-- ===== src/Generation/BranchDayCapacity/Bounds.antt =====
-- apps/api/src/scheduling/visit-generation/branch-day-capacity.ts: nobody is counted twice, and what
-- the capacity is for each kind of day.
use ultrakil_scheduling_syst.Prelude.{
  ℕ, zero, suc, ◌+◌, ◌*◌, ◌≤◌, ◌<◌, ◌≡◌, refl, sym, ap, inl, inr, Bool, true, false, not, ◌&&◌,
  none, List, [], ◌∷◌, ◌++◌, map, String, string_eq, ◌==◌, nat_eqb, has, has-In, filter, length, In,
  All, All-In, All-of_In, All-map, All-append, ◌↔◌, In-filter, Bool-cases, arith,
}
use native.Mathlib.Nat.{mul-le-mul_right}
use ultrakil_scheduling_syst.Domain.{BranchCode, DateOnly}
use ultrakil_scheduling_syst.Generation.TransportMatching.{
  Matched, eligible, matching_of, max_bipartite_matching,
}
use ultrakil_scheduling_syst.Generation.TransportMatching.Counting.{holds}
use ultrakil_scheduling_syst.Generation.TransportMatching.Soundness.{matching_of-IsAssignment}
use ultrakil_scheduling_syst.Generation.BranchDayCapacity.{
  BranchDayResourceFacts, PoolEmployee, PoolVehicle, BranchResourcePool, VehicleResource,
  employee_ids, vehicle_resource, vehicle_resources_for, unavailable_on, available_on,
  vehicle_driver_lists, walk_slots, facts_for_date, compute_branch_day_capacity,
}

-- Entries for distinct people out of a list are at most as many as the list is long.
without : String → Matched → Matched
without person = filter (λ entry. not (entry.0 == person))

length-without :
    (person : String) (matched : Matched)
    → length matched ≡ holds person matched + length (without person matched)
unfolding without
length-without person [] = omega arith
length-without person (entry ∷ matched) = ground (arith, length-without person matched)

holds-without :
    (who person : String) (matched : Matched)
    → holds who (without person matched) ≤ holds who matched
unfolding without
holds-without who person [] = omega arith
holds-without who person (entry ∷ matched) = ground (arith, holds-without who person matched)

without-In :
    (person : String) (people : List String) (matched : Matched)
    → All (λ entry. In entry.0 (person ∷ people)) matched
    → All (λ entry. In entry.0 people) (without person matched)
unfolding without
without-In person people [] h = tt
without-In person people (entry ∷ matched) h = elim (Bool-cases (entry.0 == person)) [
  | inl t ↦ rw t (without-In person people matched h.1)
  | inr f ↦ rw f (
    elim h.0 [
      | inl e ↦ absurd (let t = (string_eq.beq_iff entry.0 person).1 (sym e) in cc)
      | inr m ↦ m
    ],
    without-In person people matched h.1,
  )
]

distinct_le :
    (people : List String) (matched : Matched)
    → ((who : String) → holds who matched ≤ 1)
    → All (λ entry. In entry.0 people) matched
    → length matched ≤ length people
distinct_le [] [] once h = omega arith
distinct_le [] (entry ∷ matched) once h = absurd h.0
distinct_le (person ∷ people) matched once h =
    let rest =
      distinct_le people (without person matched)
        (λ who. omega (arith, holds-without who person matched, once who))
        (without-In person people matched h) in
    omega (arith, rest, length-without person matched, once person)

length-employee_ids :
    (employees : List PoolEmployee) → length (employee_ids employees) ≡ length employees
length-employee_ids [] = refl
length-employee_ids (e ∷ employees) = omega (arith, length-employee_ids employees)

-- A property of every person on some list of the resources.
abbrev AllEligible : (String → Type 0) → List (List String) → Type 0
AllEligible P = All (All P)

eligible-All :
    (P : String → Type 0) (resources : List (List String))
    → AllEligible P resources
    → (index : ℕ) → All P (eligible resources index)
eligible-All P [] h index = tt
eligible-All P (people ∷ resources) h zero = h.0
eligible-All P (people ∷ resources) h (suc index) = eligible-All P resources h.1 index

-- A matching over people of one list is no larger than the list.
matching-le :
    (resources : List (List String)) (people : List String)
    → AllEligible (λ p. In p people) resources
    → max_bipartite_matching resources ≤ length people
unfolding max_bipartite_matching
matching-le resources people h =
    let found = matching_of-IsAssignment resources in
    let matched : Matched = (matching_of resources).assigned in
    let listed =
      All-map (λ entry. In entry.0 (eligible resources entry.1)) (λ entry. In entry.0 people)
        (λ entry m.
          All-In (λ p. In p people) (eligible resources entry.1)
            (eligible-All (λ p. In p people) resources h entry.1) m)
        matched found.is_matching.are_eligible in
    omega
      (arith, found.is_counted, distinct_le people matched found.is_matching.are_distinct listed)

abbrev drivers_of : VehicleResource → List String
drivers_of resource = resource.eligible_driver_ids

abbrev slot_of : PoolEmployee → List String
slot_of employee = employee.id ∷ []

capacity_of_transport :
    (facts : BranchDayResourceFacts) (workday fallback : ℕ)
    → 0 < facts.total_employee_count
    → 0 < facts.active_vehicle_count
    → facts.has_available_pms_supervisor ≡ true
    → facts.transport_capable_concurrent_crews ≤ facts.available_employee_count
    → (compute_branch_day_capacity facts workday fallback).capacity_minutes
      ≡ facts.transport_capable_concurrent_crews * workday
unfolding compute_branch_day_capacity
capacity_of_transport facts workday fallback recorded equipped supervised fewer =
    let smaller = mul-le-mul_right workday fewer in
    elim (Bool-cases (nat_eqb facts.transport_capable_concurrent_crews 0)) [
      | inl t ↦
          let none_move : facts.transport_capable_concurrent_crews ≡ 0 = ground arith in
          rw (supervised, none_move) (ground arith)
      | inr f ↦ ground (arith, smaller)
    ]

module _ (pool : BranchResourcePool) (date : DateOnly) where
  In-available :
      (id : String) (employees : List PoolEmployee)
      → In id (employee_ids employees)
      → has id (unavailable_on pool date) ≡ false
      → In id (employee_ids (filter (λ e. not (has e.id (unavailable_on pool date))) employees))
  In-available id [] m away = absurd m
  In-available id (e ∷ employees) (inl same) away =
      let here : has e.id (unavailable_on pool date) ≡ false = rw (← same) at away in
      rw here (inl same)
  In-available id (e ∷ employees) (inr m) away =
      elim (Bool-cases (has e.id (unavailable_on pool date))) [
        | inl t ↦ rw t (In-available id employees m away)
        | inr f ↦ rw f (inr (In-available id employees m away))
      ]

  abbrev IsAvailable : String → Type 0
  IsAvailable id = In id (employee_ids (available_on pool date))

  can_drive : String → Bool
  can_drive id = has id (employee_ids pool.employees) && not (has id (unavailable_on pool date))

  drivers-IsAvailable : (ids : List String) → All IsAvailable (filter can_drive ids)
  unfolding available_on can_drive
  drivers-IsAvailable ids = All-of_In IsAvailable (filter can_drive ids) (λ id m.
      let test = (In-filter can_drive ids m).1 in
      In-available id pool.employees (has-In id (employee_ids pool.employees) (ground arith))
        (ground arith))

  vehicles-IsAvailable :
      (vehicles : List PoolVehicle)
      → AllEligible IsAvailable
          (map drivers_of (map (vehicle_resource pool (unavailable_on pool date)) vehicles))
  unfolding vehicle_resource can_drive
  vehicles-IsAvailable [] = tt
  vehicles-IsAvailable (vehicle ∷ vehicles) =
      (drivers-IsAvailable vehicle.authorized_employee_ids, vehicles-IsAvailable vehicles)

  slots-IsAvailable :
      (walkers : List PoolEmployee)
      → All (λ e. IsAvailable e.id) walkers
      → AllEligible IsAvailable (map slot_of walkers)
  slots-IsAvailable [] h = tt
  slots-IsAvailable (e ∷ walkers) h = ((h.0, tt), slots-IsAvailable walkers h.1)

  In-employee_ids :
      (employees : List PoolEmployee) (e : PoolEmployee)
      → In e employees
      → In e.id (employee_ids employees)
  In-employee_ids [] e m = absurd m
  In-employee_ids (x ∷ employees) e (inl same) = inl (ap (λ y. y.id) same)
  In-employee_ids (x ∷ employees) e (inr m) = inr (In-employee_ids employees e m)

  walkers-IsAvailable : AllEligible IsAvailable (walk_slots pool date)
  unfolding walk_slots
  walkers-IsAvailable =
      slots-IsAvailable (filter (λ e. e.can_use_public_transport) (available_on pool date)) (
        All-of_In (λ e. IsAvailable e.id)
          (filter (λ e. e.can_use_public_transport) (available_on pool date))
          (λ e m.
            In-employee_ids (available_on pool date) e
              (In-filter (λ e. e.can_use_public_transport) (available_on pool date) m).0))

  lists-IsAvailable : AllEligible IsAvailable (vehicle_driver_lists pool date)
  unfolding vehicle_driver_lists vehicle_resources_for
  lists-IsAvailable = vehicles-IsAvailable pool.vehicles

  -- Nobody is counted twice: neither the vehicles that can be driven at once nor the vehicles and
  -- walkers together come to more than the people available on the date.
  pub facts_for_date-le :
      (branch_code : BranchCode)
      → ((facts_for_date pool branch_code date).driver_capable_vehicle_count
          ≤ (facts_for_date pool branch_code date).available_employee_count)
        × ((facts_for_date pool branch_code date).transport_capable_concurrent_crews
            ≤ (facts_for_date pool branch_code date).available_employee_count)
  unfolding facts_for_date
  facts_for_date-le branch_code =
      let people = employee_ids (available_on pool date) in
      let counted = length-employee_ids (available_on pool date) in
      (
        omega
            (arith, counted, matching-le (vehicle_driver_lists pool date) people lists-IsAvailable),
        omega (
          arith,
          counted,
          matching-le (vehicle_driver_lists pool date ++ walk_slots pool date) people (
              All-append (All IsAvailable) (vehicle_driver_lists pool date) (walk_slots pool date)
                lists-IsAvailable walkers-IsAvailable),
        ),
      )

  -- A branch with a recorded workforce, vehicles and a supervisor on the date carries exactly the
  -- workday of each vehicle or walker of the matching: the people are never the smaller bound.
  pub compute_branch_day_capacity_transport :
      (branch_code : BranchCode) (workday fallback : ℕ)
      → 0 < length pool.employees
      → 0 < length pool.vehicles
      → (facts_for_date pool branch_code date).has_available_pms_supervisor ≡ true
      → (compute_branch_day_capacity
          (facts_for_date pool branch_code date)
          workday
          fallback).capacity_minutes
        ≡ (facts_for_date pool branch_code date).transport_capable_concurrent_crews * workday
  unfolding facts_for_date
  compute_branch_day_capacity_transport branch_code workday fallback recorded equipped supervised =
      capacity_of_transport (facts_for_date pool branch_code date) workday fallback recorded
        equipped supervised (facts_for_date-le branch_code).1

mul-positive : (a b : ℕ) → 0 < b → (0 < a * b) ↔ (0 < a)
mul-positive zero b h = (λ k. ground arith, λ k. ground arith)
mul-positive (suc a) b h = (λ k. omega arith, λ k. omega arith)

-- A branch-day with a recorded workforce carries something exactly when it has a supervisor and
-- somebody available and, if the branch has vehicles, some crew that can travel, for a workday of
-- some length. It never carries more than the workdays of the people available nor, with vehicles,
-- than those of the crews that can travel, and it gives no reason exactly when a supervisor is there
-- and vehicles, if any, can move a crew. Without a recorded workforce it carries the fallback.
pub compute_branch_day_capacity_lem :
    (facts : BranchDayResourceFacts) (workday fallback : ℕ)
    → 0 < workday
    → (facts.total_employee_count ≡ 0
        → (compute_branch_day_capacity facts workday fallback).capacity_minutes ≡ fallback)
      × (0 < facts.total_employee_count
          → ((0 < (compute_branch_day_capacity facts workday fallback).capacity_minutes) ↔ (
              (facts.has_available_pms_supervisor ≡ true)
              × (0 < facts.available_employee_count)
              × (0 < facts.active_vehicle_count → 0 < facts.transport_capable_concurrent_crews)))
            × ((compute_branch_day_capacity facts workday fallback).capacity_minutes
                ≤ facts.available_employee_count * workday)
            × (0 < facts.active_vehicle_count
                → (compute_branch_day_capacity facts workday fallback).capacity_minutes
                  ≤ facts.transport_capable_concurrent_crews * workday)
            × (((compute_branch_day_capacity facts workday fallback).reason ≡ none) ↔ (
                (facts.has_available_pms_supervisor ≡ true)
                × (0 < facts.active_vehicle_count → 0 < facts.transport_capable_concurrent_crews))))
unfolding compute_branch_day_capacity
compute_branch_day_capacity_lem facts workday fallback some_time =
    let people = mul-positive facts.available_employee_count workday some_time in
    let crews = mul-positive facts.transport_capable_concurrent_crews workday some_time in
    (
      λ e. ground arith,
      λ h. (
        (λ k. ground (arith, people, crews), λ k. ground (arith, people, crews)),
        ground arith,
        λ k. ground arith,
        (λ k. ground arith, λ k. ground arith),
      ),
    )
