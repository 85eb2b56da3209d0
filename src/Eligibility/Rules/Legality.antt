-- ===== src/Eligibility/Rules/Legality.antt =====
-- apps/api/src/scheduling/eligibility/rules.ts: `evaluateAssignment` against a description of a
-- legal assignment, and its completeness on one member of the crew.
use ultrakil_scheduling_syst.Prelude.{
  ◌≤◌, ◌≡◌, ◌≢◌, refl, ◌↔◌, true, none, List, [], ◌∷◌, string_eq, length, null, All, In,
}
use ultrakil_scheduling_syst.Prelude.Int.{pos, ◌+ℤ◌, ◌≤ℤ◌}
use ultrakil_scheduling_syst.Eligibility.Conflicts.{Conflict}
use ultrakil_scheduling_syst.Eligibility.Facts.{
  EmployeeFacts, AssignmentProposal, EligibilityContext,
}
use ultrakil_scheduling_syst.Eligibility.Rules.Crew.{by_id, crew_skills}
use ultrakil_scheduling_syst.Eligibility.Rules.Vehicles.{vehicle_by_id}
use ultrakil_scheduling_syst.Eligibility.Rules.Judgement.{
  proposed_crew, pushed_conflicts, evaluate_assignment,
}
use ultrakil_scheduling_syst.Eligibility.Rules.Conditions.{
  AreFresh, AreFitVehicles, visit_iff, lock_iff, time_iff, fresh_iff, size_iff, crew_iff,
  supervision_iff, skill_iff, fleet_iff, one_iff, travel_iff,
}
use ultrakil_scheduling_syst.Eligibility.Rules.Blocks.{◌⊕◌, iff_trans}
use ultrakil_scheduling_syst.Eligibility.Rules.Fitness.{IsFitEmployee}

pub record IsLegal (proposal : AssignmentProposal) (context : EligibilityContext) : Type 0 where
  pub is_open : (context.visit.status ≢ "COMPLETED") × (context.visit.status ≢ "CANCELLED")
  pub is_unlocked : context.existing_lock ≡ none
  pub is_long_enough :
      proposal.planned_start_minute +ℤ pos context.visit.duration_minutes
      ≤ℤ proposal.planned_end_minute
  pub is_inside_window :
      (pos context.visit.window_start_minute ≤ℤ proposal.planned_start_minute)
      × (proposal.planned_end_minute ≤ℤ pos context.visit.window_end_minute)
  pub has_no_duplicate : AreFresh [] proposal.crew
  pub is_crewed : context.visit.required_crew_size ≤ length (proposed_crew proposal context)
  pub has_fit_crew :
      All
        (IsFitEmployee context.visit proposal.planned_start_minute proposal.planned_end_minute)
        (proposed_crew proposal context)
  pub is_supervised :
      (employee : EmployeeFacts) × In employee (proposed_crew proposal context)
      × (employee.is_pms_grade ≡ true)
  pub is_skilled :
      All
        (λ code. In code (crew_skills (proposed_crew proposal context)))
        context.visit.required_skill_codes
  pub has_fit_vehicles :
      AreFitVehicles context.visit proposal.planned_start_minute proposal.planned_end_minute
        (proposed_crew proposal context)
        (vehicle_by_id context.vehicles)
        proposal.vehicles
  pub has_one_vehicle : length proposal.vehicles ≤ 1
  pub can_travel :
      proposal.vehicles ≡ []
      → All (λ employee. employee.can_use_public_transport ≡ true) (proposed_crew proposal context)

pushed_nil :
    (proposal : AssignmentProposal) (context : EligibilityContext)
    → (pushed_conflicts proposal context ≡ []) ↔ IsLegal proposal context
unfolding pushed_conflicts
pushed_nil proposal context =
    let visit = context.visit in
    let start = proposal.planned_start_minute in
    let end = proposal.planned_end_minute in
    let crew = proposed_crew proposal context in
    let index = by_id context.employees in
    let fleet = vehicle_by_id context.vehicles in
    iff_trans
      (visit_iff visit
        ⊕ lock_iff visit context.existing_lock
        ⊕ time_iff visit start end
        ⊕ fresh_iff visit index [] [] proposal.crew (λ id. refl)
        ⊕ size_iff visit crew
        ⊕ crew_iff visit start end crew
        ⊕ supervision_iff visit context.branch_has_pms_supervisor crew
        ⊕ skill_iff visit crew
        ⊕ fleet_iff visit start end crew fleet proposal.vehicles
        ⊕ one_iff visit fleet proposal.vehicles
        ⊕ travel_iff visit proposal.vehicles crew)
      (
        λ h.
            let ((((((((((a, b), (c, d)), e), f), g), i), j), k), l), m) = h in
            record {
              is_open = a;
              is_unlocked = b;
              is_long_enough = c;
              is_inside_window = d;
              has_no_duplicate = e;
              is_crewed = f;
              has_fit_crew = g;
              is_supervised = i;
              is_skilled = j;
              has_fit_vehicles = k;
              has_one_vehicle = l;
              can_travel = m;
            },
        λ h. (
          (
            (
              (
                (
                  (
                    (
                      (
                        ((h.is_open, h.is_unlocked), (h.is_long_enough, h.is_inside_window)),
                        h.has_no_duplicate,
                      ),
                      h.is_crewed,
                    ),
                    h.has_fit_crew,
                  ),
                  h.is_supervised,
                ),
                h.is_skilled,
              ),
              h.has_fit_vehicles,
            ),
            h.has_one_vehicle,
          ),
          h.can_travel,
        ),
      )

null_iff : (xs : List Conflict) → (null xs ≡ true) ↔ (xs ≡ [])
null_iff [] = (λ h. refl, λ h. refl)
null_iff (x ∷ xs) = (λ h. absurd (cc), λ h. absurd (cc))

-- The engine calls a proposal eligible exactly when it is legal: every rule on the visit, its lock,
-- the time, the crew, the supervision, the skills, the vehicles and the journey holds at once.
pub evaluate_assignment-IsLegal :
    (proposal : AssignmentProposal) (context : EligibilityContext)
    → ((evaluate_assignment proposal context).is_eligible ≡ true) ↔ IsLegal proposal context
unfolding evaluate_assignment
evaluate_assignment-IsLegal proposal context =
    iff_trans (null_iff (pushed_conflicts proposal context)) (pushed_nil proposal context)
