-- ===== src/Eligibility/Rules/Crew.antt =====
-- apps/api/src/scheduling/eligibility/rules.ts: the blocks on the crew, supervision, the skills
-- and the journey.
use ultrakil_scheduling_syst.Prelude.{
  ◌-◌, Bool, true, false, not, ◌&&◌, Option, none, some, List, [], ◌∷◌, ◌++◌, map, String,
  if◌then◌else◌, ◌=/=◌, string_eq, ltb, nat_eqb, null, has, add, dedup, find, filter, some_of,
  lookup, insert, length, get_or_else,
}
use ultrakil_scheduling_syst.Prelude.Sort.{sort_by}
use ultrakil_scheduling_syst.Prelude.Text.{concat, join, show, str_ltb}
use ultrakil_scheduling_syst.Prelude.Int.{ℤ}
use ultrakil_scheduling_syst.Config.{default_different_site_travel_buffer_minutes}
use ultrakil_scheduling_syst.Domain.{DeploymentType, mobile, permanently_stationed}
use ultrakil_scheduling_syst.Eligibility.Conflicts.{
  Conflict, duplicate_crew_member, crew_too_small, employee_inactive, branch_mismatch,
  employee_unavailable, employee_permanently_stationed, employee_double_booked,
  employee_travel_gap_too_short, no_pms_supervisor_available, branch_has_no_pms_supervisor,
  skill_not_held, crew_cannot_travel, ConflictResources, about,
}
use ultrakil_scheduling_syst.Eligibility.Facts.{
  VisitFacts, BusyPeriod, EmployeeFacts, ProposedCrewMember, ProposedVehicle,
}
use ultrakil_scheduling_syst.Eligibility.Messages.{
  format_minute, lower, show_date, pms_supervisor_remediation,
}
use ultrakil_scheduling_syst.Eligibility.Rules.Visit.{
  when, is_truthy, conflict_of, overlaps, has_insufficient_travel_gap,
}

-- `new Map(context.employees.map((employee) => [employee.id, employee]))`: the last of an id stays.
unfoldable pub index_from :
    List (String × EmployeeFacts) → List EmployeeFacts → List (String × EmployeeFacts)
index_from index [] = index
index_from index (employee ∷ employees) = index_from (insert employee.id employee index) employees

unfoldable pub by_id : List EmployeeFacts → List (String × EmployeeFacts)
by_id employees = index_from [] employees

abbrev pub known : Option EmployeeFacts → List EmployeeFacts → List EmployeeFacts
known none rest = rest
known (some employee) rest = employee ∷ rest

-- `.map((id) => byId.get(id)).filter((employee) => employee !== undefined)`
unfoldable pub known_employees : List (String × EmployeeFacts) → List String → List EmployeeFacts
known_employees index [] = []
known_employees index (id ∷ ids) = known (lookup id index) (known_employees index ids)

unfoldable pub crew_of :
    List (String × EmployeeFacts) → List ProposedCrewMember → List EmployeeFacts
crew_of index members = known_employees index (dedup (map (λ member. member.employee_id) members))

abbrev about_employee : VisitFacts → String → ConflictResources
about_employee visit id = record (about visit.id) { employee_ids = some (id ∷ []) }

abbrev name_or : Option EmployeeFacts → String → String
name_or none other = other
name_or (some employee) other = employee.full_name

-- The loop over the proposed members, with the set of the ids seen so far.
unfoldable pub duplicate_rules :
    VisitFacts
    → List (String × EmployeeFacts)
    → List String
    → List ProposedCrewMember
    → List Conflict
duplicate_rules visit index seen [] = []
duplicate_rules visit index seen (member ∷ members) =
    when (has member.employee_id seen) (
      conflict_of duplicate_crew_member
        (concat (
          name_or (lookup member.employee_id index) "This employee"
          ∷ " appears twice in the crew."
          ∷ []))
        "Remove the duplicate." (about_employee visit member.employee_id))
    ++ duplicate_rules visit index (add member.employee_id seen) members

unfoldable pub crew_size_rules : VisitFacts → List EmployeeFacts → List Conflict
crew_size_rules visit crew = when (ltb (length crew) visit.required_crew_size) (
    conflict_of crew_too_small
      (concat (
        visit.customer_name
        ∷ " — "
        ∷ visit.site_name
        ∷ " needs "
        ∷ show visit.required_crew_size
        ∷ " on site; "
        ∷ show (length crew)
        ∷ " "
        ∷ (if nat_eqb (length crew) 1 then "is" else "are")
        ∷ " assigned."
        ∷ []))
      (concat (
        "Add "
        ∷ show (visit.required_crew_size - length crew)
        ∷ " more, or reduce the crew size on the agreement if the job really is smaller."
        ∷ []))
      (about visit.id))

-- A conflict about the busy period that was found, if one was.
abbrev pub when_found : Option BusyPeriod → (BusyPeriod → Conflict) → List Conflict
when_found none conflict = []
when_found (some clash) conflict = conflict clash ∷ []

abbrev pub is_stationed : DeploymentType → Bool
is_stationed mobile = false
is_stationed permanently_stationed = true

-- What one employee of the crew is refused for.
unfoldable pub employee_rules : VisitFacts → ℤ → ℤ → EmployeeFacts → List Conflict
employee_rules visit start end employee =
    when (not employee.is_active) (
      conflict_of employee_inactive
        (concat (employee.full_name ∷ " is no longer active and cannot be assigned." ∷ []))
        "Pick someone else, or reactivate them on the Workforce page."
        (about_employee visit employee.id))
    ++ when (employee.branch_code =/= visit.branch_code) (
        conflict_of branch_mismatch
          (concat (
            employee.full_name ∷ " works out of " ∷ employee.branch_code ∷ " and this visit is "
            ∷ visit.branch_code ∷ " work." ∷ []))
          (concat ("Assign someone from " ∷ visit.branch_code ∷ ". Branches are never mixed." ∷ []))
          (about_employee visit employee.id))
    ++ when (is_truthy employee.unavailable_reason) (
        conflict_of employee_unavailable
          (concat (
            employee.full_name
            ∷ " is on "
            ∷ lower (get_or_else employee.unavailable_reason "")
            ∷ " on "
            ∷ show_date visit.visit_date
            ∷ "."
            ∷ []))
          "Assign someone else, or move the visit to another date."
          (about_employee visit employee.id))
    ++ when
        (is_stationed employee.deployment_type
          && not (has visit.service_site_id employee.permanent_site_ids))
        (conflict_of employee_permanently_stationed
          (concat (
            employee.full_name ∷ " is permanently stationed elsewhere and cannot be sent to "
            ∷ visit.site_name ∷ "." ∷ []))
          "Assign a mobile crew member instead."
          (record (about_employee visit employee.id) {
            service_site_id = some visit.service_site_id;
          }))
    ++ when_found
        (find (λ period. overlaps start end period.start_minute period.end_minute) employee.busy)
        (λ clash.
          conflict_of employee_double_booked
            (concat (
              employee.full_name
              ∷ " is already on another job from "
              ∷ format_minute clash.start_minute
              ∷ " to "
              ∷ format_minute clash.end_minute
              ∷ " on "
              ∷ show_date visit.visit_date
              ∷ "."
              ∷ []))
            "Assign someone else, or move one of the two visits."
            (record (about_employee visit employee.id) {
              assignment_ids = some (clash.assignment_id ∷ []);
            }))
    ++ when_found (find (has_insufficient_travel_gap start end visit.service_site_id) employee.busy)
        (λ clash.
          conflict_of employee_travel_gap_too_short
            (concat (
              employee.full_name
              ∷ " has less than "
              ∷ show default_different_site_travel_buffer_minutes
              ∷ " minutes to travel between different sites on "
              ∷ show_date visit.visit_date
              ∷ "."
              ∷ []))
            "Move one visit, or assign someone with enough travel time between jobs."
            (record (about_employee visit employee.id) {
              assignment_ids = some (clash.assignment_id ∷ []);
            }))

unfoldable pub crew_rules : VisitFacts → ℤ → ℤ → List EmployeeFacts → List Conflict
crew_rules visit start end [] = []
crew_rules visit start end (employee ∷ crew) =
    employee_rules visit start end employee ++ crew_rules visit start end crew

unfoldable pub supervision_rules : VisitFacts → Bool → List EmployeeFacts → List Conflict
supervision_rules visit branch_has_pms_supervisor crew =
    when (not (some_of (λ employee. employee.is_pms_grade) crew)) (
      if branch_has_pms_supervisor
      then conflict_of no_pms_supervisor_available
          "Every job needs a PMS-grade supervisor on site, and nobody in this crew is one."
          (pms_supervisor_remediation visit.branch_code) (about visit.id)
      else conflict_of branch_has_no_pms_supervisor
          (concat (
            visit.branch_code
            ∷ " employs no PMS-grade supervisor, so no crew from this branch can legally take the job."
            ∷ []))
          (concat (
            "UltraKIL needs to station or promote a PMS-grade supervisor in " ∷ visit.branch_code
            ∷ ". Until then this work cannot be staffed — it is not a scheduling error." ∷ []))
          (about visit.id))

-- `new Set(crew.flatMap((employee) => employee.skillCodes))`, asked only `has`.
unfoldable pub crew_skills : List EmployeeFacts → List String
crew_skills [] = []
crew_skills (employee ∷ crew) = employee.skill_codes ++ crew_skills crew

unfoldable pub missing_skills : VisitFacts → List EmployeeFacts → List String
missing_skills visit crew =
    sort_by str_ltb (filter (λ code. not (has code (crew_skills crew))) visit.required_skill_codes)

unfoldable pub skill_rules : VisitFacts → List EmployeeFacts → List Conflict
skill_rules visit crew =
    let missing : List String = missing_skills visit crew in
    when (not (null missing)) (
      conflict_of skill_not_held
        (concat (
          "This job needs "
          ∷ join ", " missing
          ∷ " and nobody in the crew holds "
          ∷ (if nat_eqb (length missing) 1 then "it" else "them")
          ∷ "."
          ∷ []))
        "Add someone qualified, or correct the required skills on the agreement."
        (record (about visit.id) { skill_codes = some missing }))

-- With no vehicle, everyone travels by public transport.
unfoldable pub travel_rules : VisitFacts → List ProposedVehicle → List EmployeeFacts → List Conflict
travel_rules visit vehicles crew =
    let stranded : List EmployeeFacts =
      filter (λ employee. not employee.can_use_public_transport) crew in
    when (not (null crew) && null vehicles && not (null stranded)) (
      conflict_of crew_cannot_travel
        (concat (
          "This visit has no vehicle, and "
          ∷ join " and " (map (λ employee. employee.full_name) stranded)
          ∷ " "
          ∷ (if nat_eqb (length stranded) 1 then "is" else "are")
          ∷ " not marked as able to travel by public transport."
          ∷ []))
        "Assign a vehicle somebody in the crew is authorized to drive, or crew it with people who can travel by public transport."
        (record (about visit.id) {
          employee_ids = some (sort_by str_ltb (map (λ employee. employee.id) stranded));
        }))
