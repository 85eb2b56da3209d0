-- ===== src/Eligibility/Rules/Completeness.antt =====
-- apps/api/src/scheduling/eligibility/rules.ts: the engine reports all conflicts, never the first.
use ultrakil_scheduling_syst.Prelude.{
  ◌≡◌, refl, ◌⊎◌, inl, inr, Bool, true, false, Option, none, some, List, [], ◌∷◌, ◌++◌, String, All,
  In, All-append, Any-append_left, Any-append_right, lookup, string_eq,
}
use ultrakil_scheduling_syst.Prelude.Sort.{In-sort_by}
use ultrakil_scheduling_syst.Prelude.Int.{ℤ}
use ultrakil_scheduling_syst.Eligibility.Conflicts.{Conflict, sort_conflicts, conflict_before}
use ultrakil_scheduling_syst.Eligibility.Facts.{
  VisitFacts, BusyPeriod, EmployeeFacts, VehicleFacts, ProposedVehicle, AssignmentProposal,
  EligibilityContext,
}
use ultrakil_scheduling_syst.Eligibility.Rules.Visit.{when}
use ultrakil_scheduling_syst.Eligibility.Rules.Crew.{when_found, employee_rules, crew_rules}
use ultrakil_scheduling_syst.Eligibility.Rules.Vehicles.{
  vehicle_by_id, judged, vehicle_rules, driver_rules, fleet_rules,
}
use ultrakil_scheduling_syst.Eligibility.Rules.Judgement.{
  proposed_crew, pushed_conflicts, evaluate_assignment,
}
use ultrakil_scheduling_syst.Eligibility.Rules.Fitness.{
  IsFitEmployee, IsFitVehicle, employee_rules-IsFitEmployee, vehicle_rules-IsFitVehicle,
}

-- The conflict is about this employee, this vehicle.
abbrev pub NamesEmployee : String → Conflict → Type 0
NamesEmployee id conflict = conflict.resources.employee_ids ≡ some (id ∷ [])

abbrev pub NamesVehicle : String → Conflict → Type 0
NamesVehicle id conflict = conflict.resources.vehicle_ids ≡ some (id ∷ [])

-- Every conflict of a block satisfies the predicate. A record, so that the blocks of a sum are read
-- off the statement.
record AllOf (P : Conflict → Type 0) (block : List Conflict) : Type 0 where
  every : All P block

pushed : (P : Conflict → Type 0) (b : Bool) (c : Conflict) → P c → AllOf P (when b c)
pushed P true c h = record { every = (h, tt) }
pushed P false c h = record { every = tt }

found :
    (P : Conflict → Type 0) (o : Option BusyPeriod) (f : BusyPeriod → Conflict)
    → ((p : BusyPeriod) → P (f p))
    → AllOf P (when_found o f)
found P none f h = record { every = tt }
found P (some p) f h = record { every = (h p, tt) }

module _ (P : Conflict → Type 0) where
  -- A block that is not empty holds a conflict, here one that satisfies `P`.
  first_of :
      {Q : Type 0} (block : List Conflict)
      → AllOf P block
      → (block ≡ [] → Q)
      → Q ⊎ ((c : Conflict) × In c block × P c)
  first_of [] h q = inl (q refl)
  first_of (c ∷ cs) h q = inr (c, inl refl, h.every.0)

infixl 65 ◌&◌
◌&◌ : {P : Conflict → Type 0} {xs ys : List Conflict} → AllOf P xs → AllOf P ys → AllOf P (xs ++ ys)
◌&◌ {P} {xs} {ys} hx hy = record { every = All-append P xs ys hx.every hy.every }

employee_rules-NamesEmployee :
    (visit : VisitFacts) (start end : ℤ) (employee : EmployeeFacts)
    → AllOf (NamesEmployee employee.id) (employee_rules visit start end employee)
unfolding employee_rules
employee_rules-NamesEmployee visit start end employee =
    let P = NamesEmployee employee.id in
    pushed P _ _ refl
    & pushed P _ _ refl
    & pushed P _ _ refl
    & pushed P _ _ refl
    & found P _ _ (λ p. refl)
    & found P _ _ (λ p. refl)

vehicle_rules-NamesVehicle :
    (visit : VisitFacts) (start end : ℤ) (crew : List EmployeeFacts) (proposed : ProposedVehicle)
    (vehicle : VehicleFacts)
    → AllOf (NamesVehicle vehicle.id) (vehicle_rules visit start end crew proposed vehicle)
unfolding vehicle_rules driver_rules
vehicle_rules-NamesVehicle visit start end crew proposed vehicle =
    let P = NamesVehicle vehicle.id in
    pushed P _ _ refl
    & pushed P _ _ refl
    & found P _ _ (λ p. refl)
    & found P _ _ (λ p. refl)
    & pushed P _ _ refl
    & pushed P _ _ refl

In-crew_rules :
    (visit : VisitFacts) (start end : ℤ) (crew : List EmployeeFacts) (employee : EmployeeFacts)
    (c : Conflict)
    → In employee crew
    → In c (employee_rules visit start end employee)
    → In c (crew_rules visit start end crew)
unfolding crew_rules
In-crew_rules visit start end [] employee c m h = absurd m
In-crew_rules visit start end (x ∷ crew) employee c (inl e) h =
    Any-append_left _ (employee_rules visit start end x) (crew_rules visit start end crew) (rw e h)
In-crew_rules visit start end (x ∷ crew) employee c (inr m) h =
    Any-append_right _ (employee_rules visit start end x) _
      (In-crew_rules visit start end crew employee c m h)

In-fleet_rules :
    (visit : VisitFacts) (start end : ℤ) (crew : List EmployeeFacts)
    (index : List (String × VehicleFacts)) (vehicles : List ProposedVehicle)
    (proposed : ProposedVehicle) (vehicle : VehicleFacts) (c : Conflict)
    → In proposed vehicles
    → lookup proposed.vehicle_id index ≡ some vehicle
    → In c (vehicle_rules visit start end crew proposed vehicle)
    → In c (fleet_rules visit start end crew index vehicles)
unfolding fleet_rules judged
In-fleet_rules visit start end crew index [] proposed vehicle c m known h = absurd m
In-fleet_rules visit start end crew index (x ∷ xs) proposed vehicle c (inl e) known h =
    let here : lookup x.vehicle_id index ≡ some vehicle = rw e known in
    Any-append_left _ (judged visit start end crew x (lookup x.vehicle_id index))
      (fleet_rules visit start end crew index xs) (rw (here, e) h)
In-fleet_rules visit start end crew index (x ∷ xs) proposed vehicle c (inr m) known h =
    Any-append_right _ (judged visit start end crew x (lookup x.vehicle_id index)) _
      (In-fleet_rules visit start end crew index xs proposed vehicle c m known h)

-- A conflict of a block, likewise.
record IsIn (c : Conflict) (block : List Conflict) : Type 0 where
  member : In c block

before_end :
    {c : Conflict} {xs : List Conflict} (ys : List Conflict) → IsIn c xs → IsIn c (xs ++ ys)
before_end {xs = xs} ys h = record { member = Any-append_left _ xs ys h.member }

at_end : {c : Conflict} (xs : List Conflict) {ys : List Conflict} → IsIn c ys → IsIn c (xs ++ ys)
at_end xs {ys} h = record { member = Any-append_right _ xs ys h.member }

In-pushed_conflicts_crew :
    (proposal : AssignmentProposal) (context : EligibilityContext) (c : Conflict)
    → In c (
        crew_rules context.visit proposal.planned_start_minute proposal.planned_end_minute
          (proposed_crew proposal context))
    → IsIn c (pushed_conflicts proposal context)
unfolding pushed_conflicts
In-pushed_conflicts_crew proposal context c h =
    before_end _
      (before_end _ (before_end _ (before_end _ (before_end _ (at_end _ (record { member = h }))))))

In-pushed_conflicts_fleet :
    (proposal : AssignmentProposal) (context : EligibilityContext) (c : Conflict)
    → In c (
        fleet_rules context.visit proposal.planned_start_minute proposal.planned_end_minute
          (proposed_crew proposal context)
          (vehicle_by_id context.vehicles)
          proposal.vehicles)
    → IsIn c (pushed_conflicts proposal context)
unfolding pushed_conflicts
In-pushed_conflicts_fleet proposal context c h =
    before_end _ (before_end _ (at_end _ (record { member = h })))

-- Whatever else is wrong with the proposal, a member of the proposed crew that is not fit for the
-- visit is named by a conflict of the result.
pub evaluate_assignment-NamesEmployee :
    (proposal : AssignmentProposal) (context : EligibilityContext) (employee : EmployeeFacts)
    → In employee (proposed_crew proposal context)
    → IsFitEmployee context.visit proposal.planned_start_minute proposal.planned_end_minute employee
      ⊎ ((c : Conflict) × In c (evaluate_assignment proposal context).conflicts
          × NamesEmployee employee.id c)
unfolding evaluate_assignment sort_conflicts
evaluate_assignment-NamesEmployee proposal context employee m =
    let visit = context.visit in
    let start = proposal.planned_start_minute in
    let end = proposal.planned_end_minute in
    let block = employee_rules visit start end employee in
    elim (first_of (NamesEmployee employee.id) block
      (employee_rules-NamesEmployee visit start end employee)
      (employee_rules-IsFitEmployee visit start end employee).0) [
        | inl fit ↦ inl fit
        | inr found ↦
            let (c, h, names) = found in
            inr (
              c,
              In-sort_by conflict_before (pushed_conflicts proposal context) c
                  (In-pushed_conflicts_crew proposal context c (
                    In-crew_rules visit start end (proposed_crew proposal context) employee c m
                      h)).member,
              names,
            )
      ]

-- Whatever else is wrong with the proposal, a proposed vehicle that the context knows and that is
-- not fit for the visit is named by a conflict of the result.
pub evaluate_assignment-NamesVehicle :
    (proposal : AssignmentProposal) (context : EligibilityContext) (proposed : ProposedVehicle)
    (vehicle : VehicleFacts)
    → In proposed proposal.vehicles
    → lookup proposed.vehicle_id (vehicle_by_id context.vehicles) ≡ some vehicle
    → IsFitVehicle context.visit proposal.planned_start_minute proposal.planned_end_minute
        (proposed_crew proposal context)
        proposed
        vehicle
      ⊎ ((c : Conflict) × In c (evaluate_assignment proposal context).conflicts
          × NamesVehicle vehicle.id c)
unfolding evaluate_assignment sort_conflicts
evaluate_assignment-NamesVehicle proposal context proposed vehicle m known =
    let visit = context.visit in
    let start = proposal.planned_start_minute in
    let end = proposal.planned_end_minute in
    let crew = proposed_crew proposal context in
    elim (first_of (NamesVehicle vehicle.id) (vehicle_rules visit start end crew proposed vehicle)
      (vehicle_rules-NamesVehicle visit start end crew proposed vehicle)
      (vehicle_rules-IsFitVehicle visit start end crew proposed vehicle).0) [
        | inl fit ↦ inl fit
        | inr found ↦
            let (c, h, names) = found in
            inr (
              c,
              In-sort_by conflict_before (pushed_conflicts proposal context) c
                  (In-pushed_conflicts_fleet proposal context c (
                    In-fleet_rules visit start end crew (vehicle_by_id context.vehicles)
                      proposal.vehicles proposed vehicle c m known h)).member,
              names,
            )
      ]
