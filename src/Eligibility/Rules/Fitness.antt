-- ===== src/Eligibility/Rules/Fitness.antt =====
-- apps/api/src/scheduling/eligibility/rules.ts: what the rules on one employee and on one vehicle
-- ask for, and that they push a conflict for exactly what is not met.
use ultrakil_scheduling_syst.Prelude.{
  ℕ, ◌≤◌, ◌≡◌, ◌≢◌, refl, sym, ap, ◌∙◌, inl, inr, Bool-cases, find, ◌==◌, ◌↔◌, ◌⊎◌, Bool, true,
  false, not, ◌&&◌, Option, none, some, List, [], ◌∷◌, String, ◌=/=◌, string_eq, has, has-In,
  In-has, length, All, In, arith,
}
use ultrakil_scheduling_syst.Prelude.Int.{ℤ}
use ultrakil_scheduling_syst.Domain.{mobile}
use ultrakil_scheduling_syst.Eligibility.Facts.{
  VisitFacts, BusyPeriod, EmployeeFacts, VehicleFacts, ProposedVehicle,
}
use ultrakil_scheduling_syst.Eligibility.Rules.Visit.{
  is_truthy, overlaps, has_insufficient_travel_gap,
}
use ultrakil_scheduling_syst.Eligibility.Rules.Crew.{employee_rules, is_stationed}
use ultrakil_scheduling_syst.Eligibility.Rules.Vehicles.{
  vehicle_rules, driver_rules, driver_of, is_authorized, exceeds, other_branch,
}
use ultrakil_scheduling_syst.Eligibility.Rules.Separation.{
  IsApart, has_insufficient_travel_gap-IsApart,
}
use ultrakil_scheduling_syst.Eligibility.Rules.Blocks.{◌⊕◌, when_nil, found_nil}

pub record IsFitEmployee (visit : VisitFacts) (start end : ℤ) (employee : EmployeeFacts)
    : Type 0 where
  pub is_active : employee.is_active ≡ true
  pub has_branch : employee.branch_code ≡ visit.branch_code
  pub is_available : (employee.unavailable_reason ≡ none) ⊎ (employee.unavailable_reason ≡ some "")
  pub is_deployable :
      (employee.deployment_type ≡ mobile) ⊎ In visit.service_site_id employee.permanent_site_ids
  pub is_free : All (IsApart start end visit.service_site_id) employee.busy

-- The first of the crew with the id.
abbrev pub IsFirstNamed : String → EmployeeFacts → List EmployeeFacts → Type 0
IsFirstNamed id driver [] = ⊥
IsFirstNamed id driver (employee ∷ crew) =
    ((employee.id ≡ id) × (employee ≡ driver)) ⊎ ((employee.id ≢ id) × IsFirstNamed id driver crew)

-- A driver is named, by an id that is not empty, and is in the crew.
abbrev pub IsNamedDriver : List EmployeeFacts → Option String → EmployeeFacts → Type 0
IsNamedDriver crew named driver =
    (id : String) × (named ≡ some id) × (id ≢ "") × IsFirstNamed id driver crew

pub record IsFitVehicle (visit : VisitFacts) (start end : ℤ) (crew : List EmployeeFacts)
    (proposed : ProposedVehicle) (vehicle : VehicleFacts) : Type 0 where
  pub is_active : vehicle.is_active ≡ true
  pub has_branch : (vehicle.branch_code ≡ none) ⊎ (vehicle.branch_code ≡ some visit.branch_code)
  pub is_free : All (IsApart start end visit.service_site_id) vehicle.busy
  pub seats_crew : (seats : ℕ) → vehicle.seat_capacity ≡ some seats → length crew ≤ seats
  pub is_driven :
      (driver : EmployeeFacts) × IsNamedDriver crew proposed.driver_employee_id driver
      × In vehicle.id driver.authorized_vehicle_ids

find-IsFirstNamed :
    (id : String) (driver : EmployeeFacts) (crew : List EmployeeFacts)
    → (find (λ employee. employee.id == id) crew ≡ some driver) ↔ IsFirstNamed id driver crew
find-IsFirstNamed id driver [] = (λ h. absurd (cc), λ h. absurd h)
find-IsFirstNamed id driver (employee ∷ crew) =
    let (to, from) = find-IsFirstNamed id driver crew in
    let same = string_eq.beq_iff employee.id id in
    elim (Bool-cases (employee.id == id)) [
      | inl t ↦ rw t (
        λ h. inl (same.0 t, some_inj h),
        λ h. elim h [ inl k ↦ ap some k.1 | inr k ↦ absurd (k.0 (same.0 t)) ],
      )
      | inr f ↦ rw f (
        λ h. inr (λ e. absurd (let t = same.1 e in cc), to h),
        λ h. elim h [ inl k ↦ absurd (let t = same.1 (k.0) in cc) | inr k ↦ from (k.1) ],
      )
    ]
  where
    some_inj : {a b : EmployeeFacts} → some a ≡ some b → a ≡ b
    some_inj e = cc

driver_of-IsNamedDriver :
    (crew : List EmployeeFacts) (named : Option String) (driver : EmployeeFacts)
    → (driver_of crew named ≡ some driver) ↔ IsNamedDriver crew named driver
unfolding driver_of
driver_of-IsNamedDriver crew none driver =
    (λ h. absurd (cc), λ h. let (id, e, named, r) = h in absurd (cc))
driver_of-IsNamedDriver crew (some id) driver =
    let empty = string_eq.beq_iff id "" in
    let found = find-IsFirstNamed id driver crew in
    elim (Bool-cases (id == "")) [
      | inl t ↦ rw t (
        λ h. absurd (cc),
        λ h.
            let (other, e, named, r) = h in
            absurd (named (let same : id ≡ other = cc in sym same ∙ empty.0 t)),
      )
      | inr f ↦ rw f (
        λ h. (id, refl, λ e. absurd (let t = empty.1 e in cc), found.0 h),
        λ h. let (other, e, named, r) = h in found.1 (let same : other ≡ id = cc in rw same at r),
      )
    ]

module _ (start end : ℤ) (site : String) where
  free_split :
      (busy : List BusyPeriod)
      → (All (λ p. overlaps start end p.start_minute p.end_minute ≡ false) busy
          × All (λ p. has_insufficient_travel_gap start end site p ≡ false) busy)
        ↔ All (IsApart start end site) busy
  free_split [] = (λ h. tt, λ h. (tt, tt))
  free_split (p ∷ ps) =
      let apart = has_insufficient_travel_gap-IsApart start end site p in
      (
        λ h. (apart.0 (h.0.0, h.1.0), (free_split ps).0 (h.0.1, h.1.1)),
        λ h. let (a, b) = apart.1 h.0 in let (s, t) = (free_split ps).1 h.1 in ((a, s), (b, t)),
      )

truthy_iff : (o : Option String) → (is_truthy o ≡ false) ↔ ((o ≡ none) ⊎ (o ≡ some ""))
truthy_iff none = ground arith
truthy_iff (some s) = ground (arith, string_eq.beq_iff s "")

branch_iff :
    (o : Option String) (b : String) → (other_branch o b ≡ false) ↔ ((o ≡ none) ⊎ (o ≡ some b))
branch_iff none b = ground arith
branch_iff (some s) b = ground (arith, string_eq.beq_iff s b)

same_iff : (a b : String) → ((a =/= b) ≡ false) ↔ (a ≡ b)
same_iff a b = ground (arith, string_eq.beq_iff a b)

active_iff : (b : Bool) → (not b ≡ false) ↔ (b ≡ true)
active_iff b = ground arith

seats_iff :
    (n : ℕ) (o : Option ℕ) → (exceeds n o ≡ false) ↔ ((seats : ℕ) → o ≡ some seats → n ≤ seats)
seats_iff n none = (λ h s e. absurd (cc), λ h. refl)
seats_iff n (some m) = (λ h s e. ground arith, λ h. let le = h m refl in ground arith)

authorized_iff :
    (vehicle : VehicleFacts) (o : Option EmployeeFacts)
    → (not (is_authorized vehicle o) ≡ false)
      ↔ ((driver : EmployeeFacts) × (o ≡ some driver) × In vehicle.id driver.authorized_vehicle_ids)
authorized_iff vehicle none = (λ h. absurd (cc), λ h. let (d, e, m) = h in absurd (cc))
authorized_iff vehicle (some d) = (
  λ h. (d, refl, has-In vehicle.id d.authorized_vehicle_ids (ground arith)),
  λ h.
      let (d', e, m) = h in
      rw (In-has vehicle.id d.authorized_vehicle_ids (rw (some_inj e) m)) refl,
)
  where
    some_inj : {a b : EmployeeFacts} → some a ≡ some b → a ≡ b
    some_inj e = cc

stationed_iff :
    (visit : VisitFacts) (employee : EmployeeFacts)
    → ((is_stationed employee.deployment_type
          && not (has visit.service_site_id employee.permanent_site_ids))
        ≡ false)
      ↔ ((employee.deployment_type ≡ mobile) ⊎ In visit.service_site_id employee.permanent_site_ids)
stationed_iff visit employee = ground (
  arith,
  has-In visit.service_site_id employee.permanent_site_ids,
  In-has visit.service_site_id employee.permanent_site_ids,
)

-- The same conditions in the order of the blocks.
abbrev EmployeeConditions : VisitFacts → ℤ → ℤ → EmployeeFacts → Type 0
EmployeeConditions visit start end employee =
    (((((employee.is_active ≡ true) × (employee.branch_code ≡ visit.branch_code))
          × ((employee.unavailable_reason ≡ none) ⊎ (employee.unavailable_reason ≡ some "")))
        × ((employee.deployment_type ≡ mobile)
            ⊎ In visit.service_site_id employee.permanent_site_ids))
      × All (λ p. overlaps start end p.start_minute p.end_minute ≡ false) employee.busy)
    × All (λ p. has_insufficient_travel_gap start end visit.service_site_id p ≡ false) employee.busy

employee_rules_nil :
    (visit : VisitFacts) (start end : ℤ) (employee : EmployeeFacts)
    → (employee_rules visit start end employee ≡ []) ↔ EmployeeConditions visit start end employee
unfolding employee_rules
employee_rules_nil visit start end employee =
    when_nil _ _ (active_iff employee.is_active)
    ⊕ when_nil _ _ (same_iff employee.branch_code visit.branch_code)
    ⊕ when_nil _ _ (truthy_iff employee.unavailable_reason)
    ⊕ when_nil _ _ (stationed_iff visit employee)
    ⊕ found_nil _ employee.busy _
    ⊕ found_nil _ employee.busy _

-- The engine has nothing against an employee exactly when the employee is fit for the visit:
-- active, of its branch, available, mobile or stationed there, and free around the booking.
pub employee_rules-IsFitEmployee :
    (visit : VisitFacts) (start end : ℤ) (employee : EmployeeFacts)
    → (employee_rules visit start end employee ≡ []) ↔ IsFitEmployee visit start end employee
employee_rules-IsFitEmployee visit start end employee =
    let blocks = employee_rules_nil visit start end employee in
    let free = free_split start end visit.service_site_id employee.busy in
    (
      λ h.
          let (((((a, b), c), d), e), f) = blocks.0 h in
          record {
            is_active = a;
            has_branch = b;
            is_available = c;
            is_deployable = d;
            is_free = free.0 (e, f);
          },
      λ h.
          let (e, f) = free.1 h.is_free in
          blocks.1 (((((h.is_active, h.has_branch), h.is_available), h.is_deployable), e), f),
    )

abbrev VehicleConditions :
    VisitFacts → ℤ → ℤ → List EmployeeFacts → ProposedVehicle → VehicleFacts → Type 0
VehicleConditions visit start end crew proposed vehicle =
    (((((vehicle.is_active ≡ true)
            × ((vehicle.branch_code ≡ none) ⊎ (vehicle.branch_code ≡ some visit.branch_code)))
          × All (λ p. overlaps start end p.start_minute p.end_minute ≡ false) vehicle.busy)
        × All (λ p. has_insufficient_travel_gap start end visit.service_site_id p ≡ false)
            vehicle.busy)
      × ((seats : ℕ) → vehicle.seat_capacity ≡ some seats → length crew ≤ seats))
    × ((driver : EmployeeFacts) × (driver_of crew proposed.driver_employee_id ≡ some driver)
        × In vehicle.id driver.authorized_vehicle_ids)

vehicle_rules_nil :
    (visit : VisitFacts) (start end : ℤ) (crew : List EmployeeFacts) (proposed : ProposedVehicle)
    (vehicle : VehicleFacts)
    → (vehicle_rules visit start end crew proposed vehicle ≡ [])
      ↔ VehicleConditions visit start end crew proposed vehicle
unfolding vehicle_rules driver_rules
vehicle_rules_nil visit start end crew proposed vehicle =
    when_nil _ _ (active_iff vehicle.is_active)
    ⊕ when_nil _ _ (branch_iff vehicle.branch_code visit.branch_code)
    ⊕ found_nil _ vehicle.busy _
    ⊕ found_nil _ vehicle.busy _
    ⊕ when_nil _ _ (seats_iff (length crew) vehicle.seat_capacity)
    ⊕ when_nil _ _ (authorized_iff vehicle (driver_of crew proposed.driver_employee_id))

-- The engine has nothing against a proposed vehicle exactly when it is fit for the visit: active,
-- of its branch or of no recorded one, free around the booking, with seats for the whole crew, and
-- driven by the named person: the first of the crew with the id named, which is not empty, is
-- authorized for it.
pub vehicle_rules-IsFitVehicle :
    (visit : VisitFacts) (start end : ℤ) (crew : List EmployeeFacts) (proposed : ProposedVehicle)
    (vehicle : VehicleFacts)
    → (vehicle_rules visit start end crew proposed vehicle ≡ [])
      ↔ IsFitVehicle visit start end crew proposed vehicle
vehicle_rules-IsFitVehicle visit start end crew proposed vehicle =
    let blocks = vehicle_rules_nil visit start end crew proposed vehicle in
    let free = free_split start end visit.service_site_id vehicle.busy in
    (
      λ h.
          let (((((a, b), c), d), e), f) = blocks.0 h in
          record {
            is_active = a;
            has_branch = b;
            is_free = free.0 (c, d);
            seats_crew = e;
            is_driven =
                let (driver, found, may) = f in
                (
                  driver,
                  (driver_of-IsNamedDriver crew proposed.driver_employee_id driver).0 found,
                  may,
                );
          },
      λ h.
          let (c, d) = free.1 h.is_free in
          let (driver, named, may) = h.is_driven in
          let found = (driver_of-IsNamedDriver crew proposed.driver_employee_id driver).1 named in
          blocks.1 (((((h.is_active, h.has_branch), c), d), h.seats_crew), (driver, found, may)),
    )
