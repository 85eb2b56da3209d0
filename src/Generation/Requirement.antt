-- ===== src/Generation/Requirement.antt =====
-- The data of a generation run: `RequiredVisit` and `ExistingVisit` of plan.ts, and the
-- `PreviewAlternative` of catalog/schedule-preview.ts.
use ultrakil_scheduling_syst.Prelude.{ℕ, Bool, Option, List, String}
use ultrakil_scheduling_syst.Prelude.Int.{ℤ}
use ultrakil_scheduling_syst.Domain.{
  DateOnly, Minute, BranchCode, VisitPlacement, DataProvenance, Weekday,
}

-- Another day of the same period that a visit could have used instead.
pub record PreviewAlternative : Type 0 where
  pub date : DateOnly
  pub weekday : Weekday
  pub window_start_minute : Minute
  pub window_end_minute : Minute
  pub is_preferred_day : Bool
  pub window_provenance : DataProvenance

-- A visit that the agreements require on a given date. An optional field is an `Option`.
pub record RequiredVisit : Type 0 where
  pub service_agreement_id : String
  pub visit_date : DateOnly
  pub window_start_minute : Minute
  pub window_end_minute : Minute
  pub duration_minutes : ℕ
  pub required_crew_size : ℕ
  pub required_skill_codes : List String
  pub branch_code : BranchCode
  pub agreement_version_id : Option String
  pub window_provenance : Option DataProvenance
  pub is_preferred_day : Bool
  pub placement : VisitPlacement
  pub period_index : ℤ
  pub alternatives : List PreviewAlternative
  pub pinned_from : Option DateOnly

-- A visit already in the calendar. `updated_at` is a time stamp, compared for equality only.
pub record ExistingVisit : Type 0 where
  pub id : String
  pub updated_at : ℕ
  pub service_agreement_id : String
  pub visit_date : DateOnly
  pub window_start_minute : Minute
  pub window_end_minute : Minute
  pub duration_minutes : ℕ
  pub required_crew_size : ℕ
  pub status : String
  pub placement : VisitPlacement
  pub is_manually_adjusted : Bool
  pub is_locked : Bool
  pub has_assignments : Bool
