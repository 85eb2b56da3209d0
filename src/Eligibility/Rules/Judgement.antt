-- ===== src/Eligibility/Rules/Judgement.antt =====
-- apps/api/src/scheduling/eligibility/rules.ts: `evaluateAssignment`, the blocks one after another.
use ultrakil_scheduling_syst.Prelude.{Bool, List, [], ◌++◌, null}
use ultrakil_scheduling_syst.Eligibility.Conflicts.{Conflict, sort_conflicts}
use ultrakil_scheduling_syst.Eligibility.Facts.{
  EmployeeFacts, AssignmentProposal, EligibilityContext,
}
use ultrakil_scheduling_syst.Eligibility.Rules.Visit.{visit_rules, lock_rules, time_rules}
use ultrakil_scheduling_syst.Eligibility.Rules.Crew.{
  by_id, crew_of, duplicate_rules, crew_size_rules, crew_rules, supervision_rules, skill_rules,
  travel_rules,
}
use ultrakil_scheduling_syst.Eligibility.Rules.Vehicles.{
  vehicle_by_id, fleet_rules, one_vehicle_rules,
}

pub record EligibilityResult : Type 0 where
  pub is_eligible : Bool
  pub conflicts : List Conflict

-- The crew that the rules judge: the proposed people, each once, that the context knows.
unfoldable pub proposed_crew : AssignmentProposal → EligibilityContext → List EmployeeFacts
proposed_crew proposal context = crew_of (by_id context.employees) proposal.crew

-- The conflicts in the order of the pushes.
unfoldable pub pushed_conflicts : AssignmentProposal → EligibilityContext → List Conflict
pushed_conflicts proposal context =
    let crew : List EmployeeFacts = proposed_crew proposal context in
    visit_rules context.visit
    ++ lock_rules context.visit context.existing_lock
    ++ time_rules context.visit proposal.planned_start_minute proposal.planned_end_minute
    ++ duplicate_rules context.visit (by_id context.employees) [] proposal.crew
    ++ crew_size_rules context.visit crew
    ++ crew_rules context.visit proposal.planned_start_minute proposal.planned_end_minute crew
    ++ supervision_rules context.visit context.branch_has_pms_supervisor crew
    ++ skill_rules context.visit crew
    ++ fleet_rules context.visit proposal.planned_start_minute proposal.planned_end_minute crew
        (vehicle_by_id context.vehicles) proposal.vehicles
    ++ one_vehicle_rules context.visit (vehicle_by_id context.vehicles) proposal.vehicles
    ++ travel_rules context.visit proposal.vehicles crew

unfoldable pub evaluate_assignment : AssignmentProposal → EligibilityContext → EligibilityResult
evaluate_assignment proposal context =
    let conflicts : List Conflict = pushed_conflicts proposal context in
    record { is_eligible = null conflicts; conflicts = sort_conflicts conflicts }
