-- ===== src/Generation/BranchDayCapacity/Examples.antt =====
-- A branch with two people, one away, and two vans.
use ultrakil_scheduling_syst.Prelude.{
  ◌*◌, ◌≤◌, ◌<◌, ◌≡◌, refl, ◌↔◌, Bool, true, none, [], ◌∷◌, String, string_eq, has, add, lookup,
  insert, arith,
}
use ultrakil_scheduling_syst.Config.{
  default_daily_capacity_minutes, default_employee_workday_minutes,
}
use ultrakil_scheduling_syst.Domain.{colombo}
use ultrakil_scheduling_syst.Generation.TransportMatching.{
  try_people, augment_from, people_of, match_from, matching_of, max_bipartite_matching,
}
use ultrakil_scheduling_syst.Generation.BranchDayCapacity.{
  BranchDayResourceFacts, PoolEmployee, PoolVehicle, BranchResourcePool, vehicle_resource,
  vehicle_resources_for, unavailable_on, available_on, vehicle_driver_lists, walk_slots,
  facts_for_date, compute_branch_day_capacity,
}
use ultrakil_scheduling_syst.Generation.BranchDayCapacity.Bounds.{
  facts_for_date-le, compute_branch_day_capacity_transport, compute_branch_day_capacity_lem,
}

abbrev employee : String → Bool → PoolEmployee
employee id walks = record {
  id = id;
  is_pms_grade = true;
  skill_codes = [];
  can_use_public_transport = walks;
}

abbrev vehicle : String → PoolVehicle
vehicle id = record {
  id = id;
  seat_capacity = none;
  authorized_employee_ids = "ann" ∷ "ben" ∷ "other branch" ∷ [];
}

abbrev pool : BranchResourcePool
pool = record {
  employees = employee "ann" true ∷ employee "ben" true ∷ [];
  unavailability = record { employee_id = "ben"; start_date = 10; end_date = 12 } ∷ [];
  vehicles = vehicle "van" ∷ vehicle "truck" ∷ [];
}

abbrev facts : BranchDayResourceFacts
facts = record {
  branch_code = colombo;
  date = 11;
  available_employee_count = 5;
  total_employee_count = 6;
  has_available_pms_supervisor = true;
  active_vehicle_count = 2;
  driver_capable_vehicle_count = 2;
  transport_capable_concurrent_crews = 3;
}

-- One person who could drive or walk is one unit of transport, not two.
test_pool : (facts_for_date pool colombo 11).transport_capable_concurrent_crews ≡ 1
unfolding facts_for_date max_bipartite_matching matching_of match_from augment_from try_people
    people_of vehicle_driver_lists vehicle_resources_for vehicle_resource walk_slots available_on
    unavailable_on has add lookup insert
test_pool = refl

facts_for_date-le_example :
    ((facts_for_date pool colombo 11).driver_capable_vehicle_count
      ≤ (facts_for_date pool colombo 11).available_employee_count)
    × ((facts_for_date pool colombo 11).transport_capable_concurrent_crews
        ≤ (facts_for_date pool colombo 11).available_employee_count)
facts_for_date-le_example = facts_for_date-le pool 11 colombo

compute_branch_day_capacity_transport_example :
    (compute_branch_day_capacity
      (facts_for_date pool colombo 11)
      default_employee_workday_minutes
      default_daily_capacity_minutes).capacity_minutes
    ≡ (facts_for_date pool colombo 11).transport_capable_concurrent_crews
      * default_employee_workday_minutes
unfolding facts_for_date available_on unavailable_on has
compute_branch_day_capacity_transport_example =
    compute_branch_day_capacity_transport pool 11 colombo default_employee_workday_minutes
      default_daily_capacity_minutes (omega arith) (omega arith) refl

compute_branch_day_capacity_lem_example :
    (facts.total_employee_count ≡ 0
      → (compute_branch_day_capacity facts 480 720).capacity_minutes ≡ 720)
    × (0 < facts.total_employee_count
        → ((0 < (compute_branch_day_capacity facts 480 720).capacity_minutes) ↔ (
            (facts.has_available_pms_supervisor ≡ true)
            × (0 < facts.available_employee_count)
            × (0 < facts.active_vehicle_count → 0 < facts.transport_capable_concurrent_crews)))
          × ((compute_branch_day_capacity facts 480 720).capacity_minutes
              ≤ facts.available_employee_count * 480)
          × (0 < facts.active_vehicle_count
              → (compute_branch_day_capacity facts 480 720).capacity_minutes
                ≤ facts.transport_capable_concurrent_crews * 480)
          × (((compute_branch_day_capacity facts 480 720).reason ≡ none) ↔ (
              (facts.has_available_pms_supervisor ≡ true)
              × (0 < facts.active_vehicle_count → 0 < facts.transport_capable_concurrent_crews))))
compute_branch_day_capacity_lem_example =
    compute_branch_day_capacity_lem facts 480 720 (omega arith)
