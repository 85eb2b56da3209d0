-- ===== src/Eligibility/Conflicts.antt =====
-- apps/api/src/scheduling/eligibility/conflict-codes.ts: the codes, and `sortConflicts`.
-- The comparisons of texts are those of their bytes.
use ultrakil_scheduling_syst.Prelude.{
  Bool, Option, none, some, List, [], ◌∷◌, ◌++◌, String, if◌then◌else◌, ◌=/=◌, string_eq,
  get_or_else,
}
use ultrakil_scheduling_syst.Prelude.Sort.{sort_by}
use ultrakil_scheduling_syst.Prelude.Text.{str_ltb, join}

pub data ConflictCode : Type 0 where
  branch_mismatch employee_inactive employee_unavailable employee_double_booked
        employee_travel_gap_too_short employee_permanently_stationed no_pms_supervisor_available
        branch_has_no_pms_supervisor crew_too_small skill_not_held duplicate_crew_member
        vehicle_inactive vehicle_branch_mismatch vehicle_double_booked vehicle_travel_gap_too_short
        no_authorized_driver vehicle_capacity_exceeded outside_service_hours window_too_short
        visit_not_schedulable assignment_locked crew_cannot_travel too_many_vehicles
        no_feasible_crew no_feasible_time daily_visit_cap_reached :
      ConflictCode

-- `CONFLICT_CODES`, in the catalogue's order.
abbrev pub conflict_codes : List ConflictCode
conflict_codes =
    branch_mismatch ∷ employee_inactive ∷ employee_unavailable ∷ employee_double_booked
    ∷ employee_travel_gap_too_short ∷ employee_permanently_stationed ∷ no_pms_supervisor_available
    ∷ branch_has_no_pms_supervisor ∷ crew_too_small ∷ skill_not_held ∷ duplicate_crew_member
    ∷ vehicle_inactive ∷ vehicle_branch_mismatch ∷ vehicle_double_booked
    ∷ vehicle_travel_gap_too_short ∷ no_authorized_driver ∷ vehicle_capacity_exceeded
    ∷ outside_service_hours ∷ window_too_short ∷ visit_not_schedulable ∷ assignment_locked
    ∷ crew_cannot_travel ∷ too_many_vehicles ∷ no_feasible_crew ∷ no_feasible_time
    ∷ daily_visit_cap_reached ∷ []

-- A code as the text that it is in the program.
unfoldable pub code_name : ConflictCode → String
code_name branch_mismatch = "BRANCH_MISMATCH"
code_name employee_inactive = "EMPLOYEE_INACTIVE"
code_name employee_unavailable = "EMPLOYEE_UNAVAILABLE"
code_name employee_double_booked = "EMPLOYEE_DOUBLE_BOOKED"
code_name employee_travel_gap_too_short = "EMPLOYEE_TRAVEL_GAP_TOO_SHORT"
code_name employee_permanently_stationed = "EMPLOYEE_PERMANENTLY_STATIONED"
code_name no_pms_supervisor_available = "NO_PMS_SUPERVISOR_AVAILABLE"
code_name branch_has_no_pms_supervisor = "BRANCH_HAS_NO_PMS_SUPERVISOR"
code_name crew_too_small = "CREW_TOO_SMALL"
code_name skill_not_held = "SKILL_NOT_HELD"
code_name duplicate_crew_member = "DUPLICATE_CREW_MEMBER"
code_name vehicle_inactive = "VEHICLE_INACTIVE"
code_name vehicle_branch_mismatch = "VEHICLE_BRANCH_MISMATCH"
code_name vehicle_double_booked = "VEHICLE_DOUBLE_BOOKED"
code_name vehicle_travel_gap_too_short = "VEHICLE_TRAVEL_GAP_TOO_SHORT"
code_name no_authorized_driver = "NO_AUTHORIZED_DRIVER"
code_name vehicle_capacity_exceeded = "VEHICLE_CAPACITY_EXCEEDED"
code_name outside_service_hours = "OUTSIDE_SERVICE_HOURS"
code_name window_too_short = "WINDOW_TOO_SHORT"
code_name visit_not_schedulable = "VISIT_NOT_SCHEDULABLE"
code_name assignment_locked = "ASSIGNMENT_LOCKED"
code_name crew_cannot_travel = "CREW_CANNOT_TRAVEL"
code_name too_many_vehicles = "TOO_MANY_VEHICLES"
code_name no_feasible_crew = "NO_FEASIBLE_CREW"
code_name no_feasible_time = "NO_FEASIBLE_TIME"
code_name daily_visit_cap_reached = "DAILY_VISIT_CAP_REACHED"

pub record ConflictResources : Type 0 where
  pub visit_id : Option String
  pub employee_ids : Option (List String)
  pub vehicle_ids : Option (List String)
  pub service_site_id : Option String
  pub skill_codes : Option (List String)
  pub assignment_ids : Option (List String)

-- `{ visitId }`; the other keys are given by `record (about id) { … }`.
abbrev pub about : String → ConflictResources
about visit = record {
  visit_id = some visit;
  employee_ids = none;
  vehicle_ids = none;
  service_site_id = none;
  skill_codes = none;
  assignment_ids = none;
}

pub record Conflict : Type 0 where
  pub code : ConflictCode
  pub message : String
  pub remediation : String
  pub resources : ConflictResources

conflict_key : Conflict → String
unfolding join
conflict_key conflict = join "," (
    sort_by str_ltb (
      get_or_else conflict.resources.employee_ids []
      ++ (get_or_else conflict.resources.vehicle_ids []
          ++ get_or_else conflict.resources.skill_codes [])))

-- The comparator: by code, then by the resources named, then by the message.
unfoldable pub conflict_before : Conflict → Conflict → Bool
unfolding conflict_key code_name
conflict_before left right =
    if code_name left.code =/= code_name right.code
    then str_ltb (code_name left.code) (code_name right.code)
    else if conflict_key left =/= conflict_key right
    then str_ltb (conflict_key left) (conflict_key right)
    else str_ltb left.message right.message

unfoldable pub sort_conflicts : List Conflict → List Conflict
unfolding sort_by conflict_before
sort_conflicts conflicts = sort_by conflict_before conflicts
