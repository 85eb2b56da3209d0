-- ===== src/Eligibility/Rules/Conditions.antt =====
-- apps/api/src/scheduling/eligibility/rules.ts: when each block of
-- `evaluateAssignment` pushes nothing.
use ultrakil_scheduling_syst.Prelude.{
  ◌≤◌, ◌≡◌, ◌≢◌, refl, ◌↔◌, Bool, true, false, not, ◌&&◌, Option, none, some, List, [], ◌∷◌, String,
  string_eq, has, has-In, In-has, add, has-add, lookup, length, null, filter, some_of-In,
  In-some_of, All, In, arith,
}
use ultrakil_scheduling_syst.Prelude.Sort.{sort_by, length-sort_by}
use ultrakil_scheduling_syst.Prelude.Text.{str_ltb}
use ultrakil_scheduling_syst.Prelude.Int.{ℤ, pos, ◌+ℤ◌, +ℤ_parts, -ℤ_parts, ◌≤ℤ◌}
use ultrakil_scheduling_syst.Eligibility.Facts.{
  VisitFacts, EmployeeFacts, VehicleFacts, ProposedCrewMember, ProposedVehicle, ExistingLock,
}
use ultrakil_scheduling_syst.Eligibility.Rules.Visit.{visit_rules, lock_rules, time_rules}
use ultrakil_scheduling_syst.Eligibility.Rules.Crew.{
  duplicate_rules, crew_size_rules, crew_rules, supervision_rules, crew_skills, missing_skills,
  skill_rules, travel_rules,
}
use ultrakil_scheduling_syst.Eligibility.Rules.Vehicles.{judged, fleet_rules, one_vehicle_rules}
use ultrakil_scheduling_syst.Eligibility.Rules.Blocks.{
  ◌⊕◌, when_nil, filter_nil, null_of_length, All-iff, iff_trans,
}
use ultrakil_scheduling_syst.Eligibility.Rules.Fitness.{
  IsFitEmployee, IsFitVehicle, employee_rules-IsFitEmployee, vehicle_rules-IsFitVehicle,
}

-- Nobody is proposed who was seen before.
abbrev pub AreFresh : List String → List ProposedCrewMember → Type 0
AreFresh seen [] = Unit
AreFresh seen (member ∷ members) =
    (¬ In member.employee_id seen) × AreFresh (member.employee_id ∷ seen) members

abbrev pub AreFitVehicles :
    VisitFacts
    → ℤ
    → ℤ
    → List EmployeeFacts
    → List (String × VehicleFacts)
    → List ProposedVehicle
    → Type 0
AreFitVehicles visit start end crew index = All (λ proposed.
    (vehicle : VehicleFacts)
    → lookup proposed.vehicle_id index ≡ some vehicle
    → IsFitVehicle visit start end crew proposed vehicle)

pub visit_iff :
    (visit : VisitFacts)
    → (visit_rules visit ≡ []) ↔ ((visit.status ≢ "COMPLETED") × (visit.status ≢ "CANCELLED"))
unfolding visit_rules
visit_iff visit = when_nil _ _ (
    ground (
      arith,
      string_eq.beq_iff visit.status "COMPLETED",
      string_eq.beq_iff visit.status "CANCELLED",
    ))

pub lock_iff :
    (visit : VisitFacts) (lock : Option ExistingLock) → (lock_rules visit lock ≡ []) ↔ (lock ≡ none)
unfolding lock_rules
lock_iff visit none = (λ h. refl, λ h. refl)
lock_iff visit (some lock) = (λ h. absurd (cc), λ h. absurd (cc))

pub time_iff :
    (visit : VisitFacts) (start end : ℤ)
    → (time_rules visit start end ≡ []) ↔ (
        (start +ℤ pos visit.duration_minutes ≤ℤ end)
        × ((pos visit.window_start_minute ≤ℤ start) × (end ≤ℤ pos visit.window_end_minute)))
unfolding time_rules
time_iff visit start end =
    when_nil _ _ (ground (arith, -ℤ_parts end start, +ℤ_parts start (pos visit.duration_minutes)))
    ⊕ when_nil _ _ (ground arith)

pub fresh_iff :
    (visit : VisitFacts) (index : List (String × EmployeeFacts)) (seen added : List String)
    (members : List ProposedCrewMember)
    → ((id : String) → has id added ≡ has id seen)
    → (duplicate_rules visit index added members ≡ []) ↔ AreFresh seen members
unfolding duplicate_rules has
fresh_iff visit index seen added [] same = (λ h. tt, λ h. refl)
fresh_iff visit index seen added (member ∷ members) same =
    when_nil _ _ (
      ground (
        arith,
        same member.employee_id,
        has-In member.employee_id seen,
        In-has member.employee_id seen,
      ))
    ⊕ fresh_iff visit index (member.employee_id ∷ seen) (add member.employee_id added) members
        (λ id. grown id)
  where
    grown :
        (id : String) → has id (add member.employee_id added) ≡ has id (member.employee_id ∷ seen)
    grown id = ground (arith, has-add member.employee_id id added, same id)

pub size_iff :
    (visit : VisitFacts) (crew : List EmployeeFacts)
    → (crew_size_rules visit crew ≡ []) ↔ (visit.required_crew_size ≤ length crew)
unfolding crew_size_rules
size_iff visit crew = when_nil _ _ (ground arith)

pub crew_iff :
    (visit : VisitFacts) (start end : ℤ) (crew : List EmployeeFacts)
    → (crew_rules visit start end crew ≡ []) ↔ All (IsFitEmployee visit start end) crew
unfolding crew_rules
crew_iff visit start end [] = (λ h. tt, λ h. refl)
crew_iff visit start end (employee ∷ crew) =
    employee_rules-IsFitEmployee visit start end employee ⊕ crew_iff visit start end crew

pub supervision_iff :
    (visit : VisitFacts) (has_supervisor : Bool) (crew : List EmployeeFacts)
    → (supervision_rules visit has_supervisor crew ≡ [])
      ↔ ((employee : EmployeeFacts) × In employee crew × (employee.is_pms_grade ≡ true))
unfolding supervision_rules
supervision_iff visit has_supervisor crew = when_nil _ _ (
  λ h. some_of-In (λ e. e.is_pms_grade) crew (ground arith),
  λ h. let (e, m, t) = h in rw (In-some_of (λ e. e.is_pms_grade) crew m t) refl,
)

pub skill_iff :
    (visit : VisitFacts) (crew : List EmployeeFacts)
    → (skill_rules visit crew ≡ [])
      ↔ All (λ code. In code (crew_skills crew)) visit.required_skill_codes
unfolding skill_rules missing_skills
skill_iff visit crew =
    let held : List String → String → Bool = λ skills code. not (has code skills) in
    let skills = crew_skills crew in
    let lacking = filter (held skills) visit.required_skill_codes in
    let same = null_of_length (sort_by str_ltb lacking) lacking (length-sort_by str_ltb lacking) in
    when_nil _ _ (
      iff_trans (ground (arith, same)) (
        iff_trans (filter_nil (held skills) visit.required_skill_codes) (
          All-iff (λ code. ground (arith, has-In code skills, In-has code skills))
            visit.required_skill_codes)))

pub fleet_iff :
    (visit : VisitFacts) (start end : ℤ) (crew : List EmployeeFacts)
    (index : List (String × VehicleFacts)) (vehicles : List ProposedVehicle)
    → (fleet_rules visit start end crew index vehicles ≡ [])
      ↔ AreFitVehicles visit start end crew index vehicles
unfolding fleet_rules judged
fleet_iff visit start end crew index [] = (λ h. tt, λ h. refl)
fleet_iff visit start end crew index (proposed ∷ vehicles) =
    judged_iff (lookup proposed.vehicle_id index) ⊕ fleet_iff visit start end crew index vehicles
  where
    judged_iff :
        (o : Option VehicleFacts)
        → (judged visit start end crew proposed o ≡ []) ↔ (
            (vehicle : VehicleFacts)
            → o ≡ some vehicle
            → IsFitVehicle visit start end crew proposed vehicle)
    judged_iff none = (λ h vehicle e. absurd (cc), λ h. refl)
    judged_iff (some v) =
        let fit = vehicle_rules-IsFitVehicle visit start end crew proposed v in
        (λ h vehicle e. let same : v ≡ vehicle = cc in rw (← same) (fit.0 h), λ h. fit.1 (h v refl))

pub one_iff :
    (visit : VisitFacts) (index : List (String × VehicleFacts)) (vehicles : List ProposedVehicle)
    → (one_vehicle_rules visit index vehicles ≡ []) ↔ (length vehicles ≤ 1)
unfolding one_vehicle_rules
one_iff visit index vehicles = when_nil _ _ (ground arith)

pub travel_iff :
    (visit : VisitFacts) (vehicles : List ProposedVehicle) (crew : List EmployeeFacts)
    → (travel_rules visit vehicles crew ≡ [])
      ↔ (vehicles ≡ [] → All (λ employee. employee.can_use_public_transport ≡ true) crew)
unfolding travel_rules
travel_iff visit vehicles crew =
    let strands : EmployeeFacts → Bool = λ employee. not employee.can_use_public_transport in
    when_nil _ _ (
      stranded vehicles crew
        (iff_trans (filter_nil strands crew) (All-iff (λ employee. ground arith) crew)))
  where
    stranded :
        (vehicles : List ProposedVehicle) (crew : List EmployeeFacts) {P : Type 0}
        → (null (filter (λ employee. not employee.can_use_public_transport) crew) ≡ true) ↔ P
        → ((not (null crew)
              && null vehicles
              && not (null (filter (λ employee. not employee.can_use_public_transport) crew)))
            ≡ false)
          ↔ (vehicles ≡ [] → P)
    stranded [] [] p = (λ h e. p.0 refl, λ h. refl)
    stranded [] (x ∷ xs) p = (λ h e. p.0 (ground arith), λ h. rw (p.1 (h refl)) refl)
    stranded (v ∷ vs) crew p = (λ h e. absurd (cc), λ h. ground arith)
