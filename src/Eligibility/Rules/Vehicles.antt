-- ===== src/Eligibility/Rules/Vehicles.antt =====
-- apps/api/src/scheduling/eligibility/rules.ts: the blocks on the vehicles.
use ultrakil_scheduling_syst.Prelude.{
  ℕ, Bool, false, not, Option, none, some, List, [], ◌∷◌, ◌++◌, map, String, if◌then◌else◌, ◌==◌,
  ◌=/=◌, string_eq, ltb, nat_eqb, null, has, find, filter, lookup, insert, length,
}
use ultrakil_scheduling_syst.Prelude.Sort.{sort_by}
use ultrakil_scheduling_syst.Prelude.Text.{concat, join, show, str_ltb}
use ultrakil_scheduling_syst.Prelude.Int.{ℤ}
use ultrakil_scheduling_syst.Config.{default_different_site_travel_buffer_minutes}
use ultrakil_scheduling_syst.Eligibility.Conflicts.{
  Conflict, vehicle_inactive, vehicle_branch_mismatch, vehicle_double_booked,
  vehicle_travel_gap_too_short, vehicle_capacity_exceeded, no_authorized_driver, too_many_vehicles,
  ConflictResources, about,
}
use ultrakil_scheduling_syst.Eligibility.Facts.{
  VisitFacts, EmployeeFacts, VehicleFacts, ProposedVehicle,
}
use ultrakil_scheduling_syst.Eligibility.Messages.{format_minute, show_date}
use ultrakil_scheduling_syst.Eligibility.Rules.Visit.{
  when, conflict_of, overlaps, has_insufficient_travel_gap,
}
use ultrakil_scheduling_syst.Eligibility.Rules.Crew.{when_found}

unfoldable pub vehicle_index_from :
    List (String × VehicleFacts) → List VehicleFacts → List (String × VehicleFacts)
vehicle_index_from index [] = index
vehicle_index_from index (vehicle ∷ vehicles) =
    vehicle_index_from (insert vehicle.id vehicle index) vehicles

unfoldable pub vehicle_by_id : List VehicleFacts → List (String × VehicleFacts)
vehicle_by_id vehicles = vehicle_index_from [] vehicles

abbrev about_vehicle : VisitFacts → String → ConflictResources
about_vehicle visit id = record (about visit.id) { vehicle_ids = some (id ∷ []) }

-- The driver that the proposal names, when that person is in the crew; an empty id names nobody.
unfoldable pub driver_of : List EmployeeFacts → Option String → Option EmployeeFacts
driver_of crew none = none
driver_of crew (some id) = if id == "" then none else find (λ employee. employee.id == id) crew

abbrev pub is_authorized : VehicleFacts → Option EmployeeFacts → Bool
is_authorized vehicle none = false
is_authorized vehicle (some driver) = has vehicle.id driver.authorized_vehicle_ids

abbrev pub exceeds : ℕ → Option ℕ → Bool
exceeds n none = false
exceeds n (some seats) = ltb seats n

abbrev pub other_branch : Option String → String → Bool
other_branch none branch = false
other_branch (some code) branch = code =/= branch

unfoldable pub driver_rules :
    VisitFacts → List EmployeeFacts → VehicleFacts → Option EmployeeFacts → List Conflict
driver_rules visit crew vehicle driver =
    let any_authorized : List EmployeeFacts =
      filter (λ employee. has vehicle.id employee.authorized_vehicle_ids) crew in
    when (not (is_authorized vehicle driver)) (
      conflict_of no_authorized_driver (driver_message driver)
        (if not (null any_authorized)
          then concat (
              join " or " (map (λ employee. employee.full_name) any_authorized)
              ∷ " in this crew "
              ∷ (if nat_eqb (length any_authorized) 1
                  then "is authorized — name them as the driver."
                  else "are authorized — name one of them as the driver.")
              ∷ [])
          else "Add someone authorized for this vehicle to the crew, or use a vehicle the crew can drive.")
        (record (about_vehicle visit vehicle.id) { employee_ids = some (driver_ids driver) }))
  where
    driver_message : Option EmployeeFacts → String
    driver_message none = concat (vehicle.label ∷ " has no authorized driver in this crew." ∷ [])
    driver_message (some d) =
        concat (d.full_name ∷ " is not authorized to drive " ∷ vehicle.label ∷ "." ∷ [])

    driver_ids : Option EmployeeFacts → List String
    driver_ids none = []
    driver_ids (some d) = d.id ∷ []

abbrev seats_text : Option ℕ → String
seats_text none = ""
seats_text (some seats) = show seats

-- What one proposed vehicle that the context knows is refused for.
unfoldable pub vehicle_rules :
    VisitFacts → ℤ → ℤ → List EmployeeFacts → ProposedVehicle → VehicleFacts → List Conflict
vehicle_rules visit start end crew proposed vehicle =
    when (not vehicle.is_active) (
      conflict_of vehicle_inactive
        (concat (vehicle.label ∷ " is off the road and cannot be assigned." ∷ []))
        "Pick another vehicle, or return this one to service." (about_vehicle visit vehicle.id))
    ++ when (other_branch vehicle.branch_code visit.branch_code) (
        conflict_of vehicle_branch_mismatch
          (concat (
            vehicle.label
            ∷ " belongs to "
            ∷ branch_text vehicle.branch_code
            ∷ " and this is "
            ∷ visit.branch_code
            ∷ " work."
            ∷ []))
          (concat ("Use a " ∷ visit.branch_code ∷ " vehicle." ∷ []))
          (about_vehicle visit vehicle.id))
    ++ when_found
        (find (λ period. overlaps start end period.start_minute period.end_minute) vehicle.busy)
        (λ clash.
          conflict_of vehicle_double_booked
            (concat (
              vehicle.label
              ∷ " is already out on another job from "
              ∷ format_minute clash.start_minute
              ∷ " to "
              ∷ format_minute clash.end_minute
              ∷ " on "
              ∷ show_date visit.visit_date
              ∷ "."
              ∷ []))
            "Use another vehicle, or move one of the two visits."
            (record (about_vehicle visit vehicle.id) {
              assignment_ids = some (clash.assignment_id ∷ []);
            }))
    ++ when_found (find (has_insufficient_travel_gap start end visit.service_site_id) vehicle.busy)
        (λ clash.
          conflict_of vehicle_travel_gap_too_short
            (concat (
              vehicle.label
              ∷ " has less than "
              ∷ show default_different_site_travel_buffer_minutes
              ∷ " minutes to travel between different sites on "
              ∷ show_date visit.visit_date
              ∷ "."
              ∷ []))
            "Move one visit, or use a vehicle with enough travel time between jobs."
            (record (about_vehicle visit vehicle.id) {
              assignment_ids = some (clash.assignment_id ∷ []);
            }))
    ++ when (exceeds (length crew) vehicle.seat_capacity) (
        conflict_of vehicle_capacity_exceeded
          (concat (
            vehicle.label
            ∷ " seats "
            ∷ seats_text vehicle.seat_capacity
            ∷ " and the crew is "
            ∷ show (length crew)
            ∷ "."
            ∷ []))
          "Use a larger vehicle." (about_vehicle visit vehicle.id))
    ++ driver_rules visit crew vehicle (driver_of crew proposed.driver_employee_id)
  where
    branch_text : Option String → String
    branch_text none = ""
    branch_text (some code) = code

-- A vehicle that the context does not know is passed over.
unfoldable pub judged :
    VisitFacts → ℤ → ℤ → List EmployeeFacts → ProposedVehicle → Option VehicleFacts → List Conflict
judged visit start end crew proposed none = []
judged visit start end crew proposed (some vehicle) =
    vehicle_rules visit start end crew proposed vehicle

unfoldable pub fleet_rules :
    VisitFacts
    → ℤ
    → ℤ
    → List EmployeeFacts
    → List (String × VehicleFacts)
    → List ProposedVehicle
    → List Conflict
fleet_rules visit start end crew index [] = []
fleet_rules visit start end crew index (proposed ∷ vehicles) =
    judged visit start end crew proposed (lookup proposed.vehicle_id index)
    ++ fleet_rules visit start end crew index vehicles

unfoldable pub known_labels : List (String × VehicleFacts) → List ProposedVehicle → List String
known_labels index [] = []
known_labels index (proposed ∷ vehicles) =
    labelled (lookup proposed.vehicle_id index) (known_labels index vehicles)
  where
    labelled : Option VehicleFacts → List String → List String
    labelled none rest = rest
    labelled (some vehicle) rest = vehicle.label ∷ rest

unfoldable pub one_vehicle_rules :
    VisitFacts → List (String × VehicleFacts) → List ProposedVehicle → List Conflict
one_vehicle_rules visit index vehicles =
    let labels : List String = known_labels index vehicles in
    when (ltb 1 (length vehicles)) (
      conflict_of too_many_vehicles
        (concat (
          show (length vehicles)
          ∷ " vehicles are assigned to this visit"
          ∷ (if null labels then "" else concat (" (" ∷ join ", " labels ∷ ")" ∷ []))
          ∷ "; a crew travels in one."
          ∷ []))
        "Keep the one vehicle that seats the whole crew and release the rest for other visits."
        (record (about visit.id) {
          vehicle_ids = some (sort_by str_ltb (map (λ proposed. proposed.vehicle_id) vehicles));
        }))
