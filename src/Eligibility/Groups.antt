-- ===== src/Eligibility/Groups.antt =====
-- apps/api/src/scheduling/eligibility/conflict-groups.ts: the groups that a manager filters by.
pub mod Filters
use ultrakil_scheduling_syst.Prelude.{
  ◌≡◌, refl, ◌↔◌, ◌⊎◌, inl, inr, Bool, true, false, not, ◌||◌, Option, none, some, List, [], ◌∷◌,
  ◌++◌, String, Eq, dec_eqb, dec_eqb_iff, ◌==◌, ◌=/=◌, string_eq, has, if◌then◌else◌, has-In,
  In-has, filter, find, get_or_else, In, In-filter, In-filter_intro, find-In, find-none, Any,
  Any-append, Any-append_left, Any-append_right, Option-cases, arith, beq_false, beq_refl,
}
use ultrakil_scheduling_syst.Eligibility.Conflicts.{
  ConflictCode, conflict_codes, code_name, branch_mismatch, employee_inactive, employee_unavailable,
  employee_double_booked, employee_travel_gap_too_short, employee_permanently_stationed,
  no_pms_supervisor_available, branch_has_no_pms_supervisor, crew_too_small, skill_not_held,
  duplicate_crew_member, vehicle_inactive, vehicle_branch_mismatch, vehicle_double_booked,
  vehicle_travel_gap_too_short, vehicle_capacity_exceeded, outside_service_hours, window_too_short,
  visit_not_schedulable, assignment_locked, too_many_vehicles, no_feasible_crew, no_feasible_time,
  daily_visit_cap_reached,
}

pub data ConflictGroup : Type 0 where
  missing_pms insufficient_crew missing_skill no_authorized_driver unavailable_vehicle
        branch_restriction permanent_staff_restriction service_window_conflict employee_overlap
        vehicle_overlap crew_cannot_travel other :
      ConflictGroup

unfoldable pub ConflictGroup-discrete : Discrete ConflictGroup
ConflictGroup-discrete = hlevel

instance abbrev pub group_eq : Eq ConflictGroup
group_eq = record {
  beq = dec_eqb ConflictGroup-discrete;
  beq_iff = dec_eqb_iff ConflictGroup-discrete;
}

abbrev pub conflict_groups : List ConflictGroup
conflict_groups =
    missing_pms ∷ insufficient_crew ∷ missing_skill ∷ ConflictGroup.no_authorized_driver
    ∷ unavailable_vehicle ∷ branch_restriction ∷ permanent_staff_restriction
    ∷ service_window_conflict ∷ employee_overlap ∷ vehicle_overlap
    ∷ ConflictGroup.crew_cannot_travel ∷ other ∷ []

-- `CODE_TO_GROUP`
unfoldable pub conflict_group_of : ConflictCode → ConflictGroup
conflict_group_of no_pms_supervisor_available = missing_pms
conflict_group_of branch_has_no_pms_supervisor = missing_pms
conflict_group_of crew_too_small = insufficient_crew
conflict_group_of skill_not_held = missing_skill
conflict_group_of ConflictCode.no_authorized_driver = ConflictGroup.no_authorized_driver
conflict_group_of vehicle_inactive = unavailable_vehicle
conflict_group_of vehicle_capacity_exceeded = unavailable_vehicle
conflict_group_of too_many_vehicles = unavailable_vehicle
conflict_group_of branch_mismatch = branch_restriction
conflict_group_of vehicle_branch_mismatch = branch_restriction
conflict_group_of employee_permanently_stationed = permanent_staff_restriction
conflict_group_of outside_service_hours = service_window_conflict
conflict_group_of window_too_short = service_window_conflict
conflict_group_of no_feasible_time = service_window_conflict
conflict_group_of employee_double_booked = employee_overlap
conflict_group_of employee_travel_gap_too_short = employee_overlap
conflict_group_of duplicate_crew_member = employee_overlap
conflict_group_of vehicle_double_booked = vehicle_overlap
conflict_group_of vehicle_travel_gap_too_short = vehicle_overlap
conflict_group_of ConflictCode.crew_cannot_travel = ConflictGroup.crew_cannot_travel
conflict_group_of employee_inactive = other
conflict_group_of employee_unavailable = other
conflict_group_of visit_not_schedulable = other
conflict_group_of assignment_locked = other
conflict_group_of no_feasible_crew = other
conflict_group_of daily_visit_cap_reached = other

abbrev pub group_or_other : Option ConflictCode → ConflictGroup
group_or_other none = other
group_or_other (some c) = conflict_group_of c

-- The properties that every object inherits, `CODE_TO_GROUP` too.
abbrev pub inherited_properties : List String
inherited_properties =
    "constructor" ∷ "hasOwnProperty" ∷ "isPrototypeOf" ∷ "propertyIsEnumerable" ∷ "toLocaleString"
    ∷ "toString" ∷ "valueOf" ∷ "__proto__" ∷ "__defineGetter__" ∷ "__defineSetter__"
    ∷ "__lookupGetter__" ∷ "__lookupSetter__" ∷ []

-- `CODE_TO_GROUP[code] ?? 'OTHER'`: the group, or nothing where the lookup gives an inherited value
-- of the object, which is not a group.
unfoldable pub conflict_group_of_stored : String → Option ConflictGroup
conflict_group_of_stored code =
    if has code inherited_properties
    then none
    else some (group_or_other (find (λ c. code_name c == code) conflict_codes))

-- `buildGroupCodes`: the codes of the catalogue, each pushed to its group in the catalogue's order.
unfoldable pub conflict_group_codes : ConflictGroup → List ConflictCode
conflict_group_codes group = filter (λ code. conflict_group_of code == group) conflict_codes

unfoldable pub codes_of_groups : List ConflictGroup → List ConflictCode
codes_of_groups [] = []
codes_of_groups (group ∷ groups) = conflict_group_codes group ++ codes_of_groups groups

unfoldable pub named_conflict_group_codes : List ConflictCode
named_conflict_group_codes = codes_of_groups (filter (λ group. group =/= other) conflict_groups)
