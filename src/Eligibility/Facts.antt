-- ===== src/Eligibility/Facts.antt =====
-- apps/api/src/scheduling/eligibility/rules.ts: the facts that a judgement reads. Minutes of a
-- booking are integers: a booking of the day before starts at a negative minute.
use ultrakil_scheduling_syst.Prelude.{ℕ, Bool, Option, List, String}
use ultrakil_scheduling_syst.Prelude.Int.{ℤ}
use ultrakil_scheduling_syst.Domain.{DateOnly, Minute, DeploymentType, CrewRole}

pub record VisitFacts : Type 0 where
  pub id : String
  pub branch_code : String
  pub visit_date : DateOnly
  pub window_start_minute : Minute
  pub window_end_minute : Minute
  pub duration_minutes : ℕ
  pub required_crew_size : ℕ
  pub service_site_id : String
  pub site_name : String
  pub customer_name : String
  pub required_skill_codes : List String
  pub status : String

pub record BusyPeriod : Type 0 where
  pub assignment_id : String
  pub service_site_id : String
  pub start_minute : ℤ
  pub end_minute : ℤ

pub record EmployeeFacts : Type 0 where
  pub id : String
  pub full_name : String
  pub branch_code : String
  pub is_active : Bool
  pub is_pms_grade : Bool
  pub deployment_type : DeploymentType
  pub permanent_site_ids : List String
  pub skill_codes : List String
  pub authorized_vehicle_ids : List String
  pub can_use_public_transport : Bool
  pub unavailable_reason : Option String
  pub busy : List BusyPeriod

pub record VehicleFacts : Type 0 where
  pub id : String
  pub label : String
  pub branch_code : Option String
  pub is_active : Bool
  pub seat_capacity : Option ℕ
  pub busy : List BusyPeriod

pub record ProposedCrewMember : Type 0 where
  pub employee_id : String
  pub role : CrewRole

pub record ProposedVehicle : Type 0 where
  pub vehicle_id : String
  pub driver_employee_id : Option String

pub record AssignmentProposal : Type 0 where
  pub planned_start_minute : ℤ
  pub planned_end_minute : ℤ
  pub crew : List ProposedCrewMember
  pub vehicles : List ProposedVehicle

pub record ExistingLock : Type 0 where
  pub assignment_id : String
  pub scope : String
  pub reason : Option String

pub record EligibilityContext : Type 0 where
  pub visit : VisitFacts
  pub employees : List EmployeeFacts
  pub vehicles : List VehicleFacts
  pub branch_has_pms_supervisor : Bool
  pub existing_lock : Option ExistingLock
