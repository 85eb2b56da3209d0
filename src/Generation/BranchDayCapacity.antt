-- ===== src/Generation/BranchDayCapacity.antt =====
-- apps/api/src/scheduling/visit-generation/branch-day-capacity.ts and apps/api/src/scheduling/
-- capacity.ts: a branch's resource pool on one date, and the crew-minutes that it can carry.
use ultrakil_scheduling_syst.Prelude.{
  ℕ, ◌+◌, ◌*◌, min, Bool, true, false, not, ◌&&◌, Option, none, some, List, [], ◌∷◌, ◌++◌, map,
  String, string_eq, if◌then◌else◌, leb, ltb, nat_eqb, has, filter, some_of, length, lookup, insert,
  get_or_else,
}
use ultrakil_scheduling_syst.Domain.{BranchCode, DateOnly}
use ultrakil_scheduling_syst.Generation.DayFeasibility.{BranchDayWorkforce}
use ultrakil_scheduling_syst.Generation.TransportMatching.{max_bipartite_matching}
pub mod Bounds
pub mod Examples

-- `crewMinutesOf`
abbrev pub crew_minutes_of : ℕ → ℕ → ℕ
crew_minutes_of duration_minutes required_crew_size = duration_minutes * required_crew_size

pub record BranchDayResourceFacts : Type 0 where
  pub branch_code : BranchCode
  pub date : DateOnly
  pub available_employee_count : ℕ
  pub total_employee_count : ℕ
  pub has_available_pms_supervisor : Bool
  pub active_vehicle_count : ℕ
  pub driver_capable_vehicle_count : ℕ
  pub transport_capable_concurrent_crews : ℕ

pub data CapacityReason : Type 0 where
  no_pms_supervisor no_available_driver no_workforce_recorded : CapacityReason

pub record BranchDayCapacity : Type 0 where
  pub branch_code : BranchCode
  pub date : DateOnly
  pub capacity_minutes : ℕ
  pub reason : Option CapacityReason

pub record PoolEmployee : Type 0 where
  pub id : String
  pub is_pms_grade : Bool
  pub skill_codes : List String
  pub can_use_public_transport : Bool

pub record Unavailability : Type 0 where
  pub employee_id : String
  pub start_date : DateOnly
  pub end_date : DateOnly

pub record PoolVehicle : Type 0 where
  pub id : String
  pub seat_capacity : Option ℕ
  pub authorized_employee_ids : List String

pub record BranchResourcePool : Type 0 where
  pub employees : List PoolEmployee
  pub unavailability : List Unavailability
  pub vehicles : List PoolVehicle

pub record VehicleResource : Type 0 where
  pub id : String
  pub seat_capacity : Option ℕ
  pub eligible_driver_ids : List String

abbrev pub employee_ids : List PoolEmployee → List String
employee_ids = map (λ employee. employee.id)

-- The people of this branch who are authorized for the vehicle and not away.
unfoldable pub vehicle_resource : BranchResourcePool → List String → PoolVehicle → VehicleResource
vehicle_resource pool unavailable_ids vehicle = record {
  id = vehicle.id;
  seat_capacity = vehicle.seat_capacity;
  eligible_driver_ids =
      filter
        (λ employee_id.
          has employee_id (employee_ids pool.employees) && not (has employee_id unavailable_ids))
        vehicle.authorized_employee_ids;
}

unfoldable pub vehicle_resources_for : BranchResourcePool → List String → List VehicleResource
vehicle_resources_for pool unavailable_ids =
    map (vehicle_resource pool unavailable_ids) pool.vehicles

-- The ids of the people who are away on the date.
unfoldable pub unavailable_on : BranchResourcePool → DateOnly → List String
unavailable_on pool date =
    map (λ entry. entry.employee_id)
      (filter (λ entry. leb entry.start_date date && leb date entry.end_date) pool.unavailability)

unfoldable pub available_on : BranchResourcePool → DateOnly → List PoolEmployee
available_on pool date =
    filter (λ employee. not (has employee.id (unavailable_on pool date))) pool.employees

unfoldable pub count_skills : List (String × ℕ) → List String → List (String × ℕ)
count_skills counts [] = counts
count_skills counts (skill ∷ skills) =
    count_skills (insert skill (get_or_else (lookup skill counts) 0 + 1) counts) skills

unfoldable pub count_holders : List (String × ℕ) → List PoolEmployee → List (String × ℕ)
count_holders counts [] = counts
count_holders counts (employee ∷ employees) =
    count_holders (count_skills counts employee.skill_codes) employees

-- The fields of `workforceForDate` that the staffing checks read.
unfoldable pub workforce_for_date : BranchResourcePool → DateOnly → BranchDayWorkforce
workforce_for_date pool date =
    let available : List PoolEmployee = available_on pool date in
    record {
      total_employee_count = length pool.employees;
      available_employee_count = length available;
      available_pms_count = length (filter (λ employee. employee.is_pms_grade) available);
      skill_holder_counts = count_holders [] available;
    }

unfoldable pub vehicle_driver_lists : BranchResourcePool → DateOnly → List (List String)
vehicle_driver_lists pool date =
    map (λ vehicle. vehicle.eligible_driver_ids)
      (vehicle_resources_for pool (unavailable_on pool date))

unfoldable pub walk_slots : BranchResourcePool → DateOnly → List (List String)
walk_slots pool date =
    map (λ employee. employee.id ∷ [])
      (filter (λ employee. employee.can_use_public_transport) (available_on pool date))

unfoldable pub facts_for_date : BranchResourcePool → BranchCode → DateOnly → BranchDayResourceFacts
facts_for_date pool branch_code date =
    let available : List PoolEmployee = available_on pool date in
    record {
      branch_code = branch_code;
      date = date;
      available_employee_count = length available;
      total_employee_count = length pool.employees;
      has_available_pms_supervisor = some_of (λ employee. employee.is_pms_grade) available;
      active_vehicle_count = length pool.vehicles;
      driver_capable_vehicle_count = max_bipartite_matching (vehicle_driver_lists pool date);
      transport_capable_concurrent_crews =
          max_bipartite_matching (vehicle_driver_lists pool date ++ walk_slots pool date);
    }

-- `Math.min(crewMinutes, vehicleMinutes)`, where no vehicle at all stands for no bound.
unfoldable pub compute_branch_day_capacity : BranchDayResourceFacts → ℕ → ℕ → BranchDayCapacity
compute_branch_day_capacity facts employee_workday_minutes fallback_capacity_minutes =
    let crew_minutes : ℕ = facts.available_employee_count * employee_workday_minutes in
    let vehicle_minutes : ℕ = facts.transport_capable_concurrent_crews * employee_workday_minutes in
    let capacity : ℕ → Option CapacityReason → BranchDayCapacity = λ minutes reason. record {
      branch_code = facts.branch_code;
      date = facts.date;
      capacity_minutes = minutes;
      reason = reason;
    } in
    if nat_eqb facts.total_employee_count 0
    then capacity fallback_capacity_minutes (some no_workforce_recorded)
    else if not facts.has_available_pms_supervisor
    then capacity 0 (some no_pms_supervisor)
    else if ltb 0 facts.active_vehicle_count && nat_eqb facts.transport_capable_concurrent_crews 0
    then capacity 0 (some no_available_driver)
    else capacity
        (if ltb 0 facts.active_vehicle_count
          then min crew_minutes vehicle_minutes
          else crew_minutes)
        none
