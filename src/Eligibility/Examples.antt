-- ===== src/Eligibility/Examples.antt =====
-- A visit, its branch's people and van, and proposals that the engine accepts and refuses.
use ultrakil_scheduling_syst.Prelude.{
  ℕ, ◌≡◌, ◌≢◌, refl, ◌↔◌, ◌⊎◌, inl, inr, Bool, true, false, none, some, List, [], ◌∷◌, map, String,
  string_eq, In, has, dedup, dedup_from, add, lookup, insert,
}
use ultrakil_scheduling_syst.Prelude.Int.{pos, ◌-ℤ◌}
use ultrakil_scheduling_syst.Prelude.Sort.{sort_by}
use ultrakil_scheduling_syst.Domain.{mobile, supervisor, technician}
use ultrakil_scheduling_syst.Eligibility.Conflicts.{
  Conflict, ConflictCode, code_name, conflict_before, sort_conflicts, employee_travel_gap_too_short,
  no_authorized_driver,
}
use ultrakil_scheduling_syst.Eligibility.Facts.{
  VisitFacts, BusyPeriod, EmployeeFacts, VehicleFacts, ProposedVehicle, AssignmentProposal,
  EligibilityContext,
}
use ultrakil_scheduling_syst.Eligibility.Groups.{
  ConflictGroup, other, conflict_group_of_stored, conflict_group_codes, named_conflict_group_codes,
}
use ultrakil_scheduling_syst.Eligibility.Groups.Filters.{
  Lists, IsInherited, conflict_group_of_stored_filter,
}
use ultrakil_scheduling_syst.Eligibility.Rules.{
  has_insufficient_travel_gap, visit_rules, lock_rules, time_rules, index_from, by_id,
  known_employees, crew_of, duplicate_rules, crew_size_rules, employee_rules, crew_rules,
  supervision_rules, crew_skills, missing_skills, skill_rules, travel_rules, vehicle_index_from,
  vehicle_by_id, driver_of, driver_rules, vehicle_rules, judged, fleet_rules, one_vehicle_rules,
}
use ultrakil_scheduling_syst.Eligibility.Rules.Judgement.{
  proposed_crew, pushed_conflicts, evaluate_assignment,
}
use ultrakil_scheduling_syst.Eligibility.Rules.Separation.{
  IsClear, IsApart, has_insufficient_travel_gap-IsApart,
}
use ultrakil_scheduling_syst.Eligibility.Rules.Fitness.{
  IsFitEmployee, IsFitVehicle, employee_rules-IsFitEmployee, vehicle_rules-IsFitVehicle,
}
use ultrakil_scheduling_syst.Eligibility.Rules.Legality.{IsLegal, evaluate_assignment-IsLegal}
use ultrakil_scheduling_syst.Eligibility.Rules.Completeness.{
  NamesEmployee, NamesVehicle, evaluate_assignment-NamesEmployee, evaluate_assignment-NamesVehicle,
}

abbrev visit : VisitFacts
visit = record {
  id = "visit";
  branch_code = "COLOMBO";
  visit_date = 740000;
  window_start_minute = 480;
  window_end_minute = 1020;
  duration_minutes = 60;
  required_crew_size = 2;
  service_site_id = "site";
  site_name = "Main kitchen";
  customer_name = "Hotel";
  required_skill_codes = "FUMIGATION" ∷ [];
  status = "PENDING";
}

abbrev elsewhere : BusyPeriod
elsewhere = record {
  assignment_id = "earlier";
  service_site_id = "other site";
  start_minute = pos 480;
  end_minute = pos 560;
}

abbrev person : String → Bool → List String → List BusyPeriod → EmployeeFacts
person id is_pms skills busy = record {
  id = id;
  full_name = id;
  branch_code = "COLOMBO";
  is_active = true;
  is_pms_grade = is_pms;
  deployment_type = mobile;
  permanent_site_ids = [];
  skill_codes = skills;
  authorized_vehicle_ids = "van" ∷ [];
  can_use_public_transport = false;
  unavailable_reason = none;
  busy = busy;
}

abbrev ann : EmployeeFacts
ann = person "ann" true ("FUMIGATION" ∷ []) []

abbrev ben : EmployeeFacts
ben = person "ben" false [] (elsewhere ∷ [])

abbrev van : VehicleFacts
van = record {
  id = "van";
  label = "Van 1";
  branch_code = none;
  is_active = true;
  seat_capacity = some 3;
  busy = [];
}

abbrev context : EligibilityContext
context = record {
  visit = visit;
  employees = ann ∷ ben ∷ [];
  vehicles = van ∷ [];
  branch_has_pms_supervisor = true;
  existing_lock = none;
}

abbrev brings : String → ProposedVehicle
brings driver = record { vehicle_id = "van"; driver_employee_id = some driver }

abbrev proposal : ℕ → ℕ → ProposedVehicle → AssignmentProposal
proposal start end vehicle = record {
  planned_start_minute = pos start;
  planned_end_minute = pos end;
  crew =
      record { employee_id = "ann"; role = supervisor }
      ∷ record { employee_id = "ben"; role = technician }
      ∷ [];
  vehicles = vehicle ∷ [];
}

-- An hour after Ben's other job ends, and half an hour after it.
abbrev good : AssignmentProposal
good = proposal 620 680 (brings "ann")

abbrev hurried : AssignmentProposal
hurried = proposal 590 650 (brings "cid")

test_good : (evaluate_assignment good context).is_eligible ≡ true
unfolding evaluate_assignment pushed_conflicts proposed_crew visit_rules lock_rules time_rules
    duplicate_rules crew_size_rules crew_rules employee_rules supervision_rules skill_rules
    missing_skills crew_skills fleet_rules judged vehicle_rules driver_rules driver_of
    one_vehicle_rules travel_rules by_id index_from crew_of known_employees vehicle_by_id
    vehicle_index_from has_insufficient_travel_gap has add dedup dedup_from lookup insert sort_by
    ◌-ℤ◌
test_good = refl

test_hurried :
    map (λ c. c.code) (evaluate_assignment hurried context).conflicts
    ≡ employee_travel_gap_too_short ∷ no_authorized_driver ∷ []
unfolding evaluate_assignment pushed_conflicts proposed_crew visit_rules lock_rules time_rules
    duplicate_rules crew_size_rules crew_rules employee_rules supervision_rules skill_rules
    missing_skills crew_skills fleet_rules judged vehicle_rules driver_rules driver_of
    one_vehicle_rules travel_rules by_id index_from crew_of known_employees vehicle_by_id
    vehicle_index_from has_insufficient_travel_gap has add dedup dedup_from lookup insert sort_by
    ◌-ℤ◌ sort_conflicts conflict_before code_name
test_hurried = refl

evaluate_assignment-IsLegal_example :
    ((evaluate_assignment good context).is_eligible ≡ true) ↔ IsLegal good context
evaluate_assignment-IsLegal_example = evaluate_assignment-IsLegal good context

evaluate_assignment-NamesEmployee_example :
    IsFitEmployee visit (pos 590) (pos 650) ben
    ⊎ ((c : Conflict) × In c (evaluate_assignment hurried context).conflicts
        × NamesEmployee "ben" c)
unfolding proposed_crew by_id index_from crew_of known_employees has add dedup dedup_from lookup
    insert
evaluate_assignment-NamesEmployee_example =
    evaluate_assignment-NamesEmployee hurried context ben (inr (inl refl))

evaluate_assignment-NamesVehicle_example :
    IsFitVehicle visit (pos 590) (pos 650) (proposed_crew hurried context) (brings "cid") van
    ⊎ ((c : Conflict) × In c (evaluate_assignment hurried context).conflicts × NamesVehicle "van" c)
unfolding vehicle_by_id vehicle_index_from lookup insert
evaluate_assignment-NamesVehicle_example =
    evaluate_assignment-NamesVehicle hurried context (brings "cid") van (inl refl) refl

employee_rules-IsFitEmployee_example :
    (employee_rules visit (pos 590) (pos 650) ben ≡ [])
    ↔ IsFitEmployee visit (pos 590) (pos 650) ben
employee_rules-IsFitEmployee_example = employee_rules-IsFitEmployee visit (pos 590) (pos 650) ben

vehicle_rules-IsFitVehicle_example :
    (vehicle_rules visit (pos 620) (pos 680) (ann ∷ ben ∷ []) (brings "ann") van ≡ [])
    ↔ IsFitVehicle visit (pos 620) (pos 680) (ann ∷ ben ∷ []) (brings "ann") van
vehicle_rules-IsFitVehicle_example =
    vehicle_rules-IsFitVehicle visit (pos 620) (pos 680) (ann ∷ ben ∷ []) (brings "ann") van

has_insufficient_travel_gap-IsApart_example :
    IsClear (pos 590) (pos 650) "site" elsewhere ↔ IsApart (pos 590) (pos 650) "site" elsewhere
has_insufficient_travel_gap-IsApart_example =
    has_insufficient_travel_gap-IsApart (pos 590) (pos 650) "site" elsewhere

conflict_group_of_stored_filter_example :
    ((g : ConflictGroup)
      → g ≢ other
      → (conflict_group_of_stored "SKILL_NOT_HELD" ≡ some g)
        ↔ Lists (conflict_group_codes g) "SKILL_NOT_HELD")
    × ((conflict_group_of_stored "SKILL_NOT_HELD" ≡ some other)
        ↔ ((¬ Lists named_conflict_group_codes "SKILL_NOT_HELD") × ¬ IsInherited "SKILL_NOT_HELD"))
    × ((conflict_group_of_stored "SKILL_NOT_HELD" ≡ none) ↔ IsInherited "SKILL_NOT_HELD")
    × ((c : ConflictCode) → code_name c ≡ "SKILL_NOT_HELD" → ¬ IsInherited "SKILL_NOT_HELD")
conflict_group_of_stored_filter_example = conflict_group_of_stored_filter "SKILL_NOT_HELD"
