-- ===== src/Catalog/Preview.antt =====
-- apps/api/src/catalog/schedule-preview.ts: the data of a schedule preview. An optional field is an
-- `Option`; a placement here is booked, anchored or earliest.
use ultrakil_scheduling_syst.Prelude.{
  ℕ, ◌+◌, ◌-◌, ◌*◌, max, Bool, Option, none, some, List, String, get_or_else, ltb, if◌then◌else◌,
}
use ultrakil_scheduling_syst.Prelude.Int.{ℤ}
use ultrakil_scheduling_syst.Domain.{
  DateOnly, Minute, Weekday, FrequencyUnit, DataProvenance, VisitPlacement,
}
use ultrakil_scheduling_syst.Catalog.Windows.{SiteWindow}
use ultrakil_scheduling_syst.Generation.Requirement.{PreviewAlternative}
pub mod Scan
pub mod Choice
pub mod Texts
pub mod Turns
pub mod Compute

pub record BlockedSlot : Type 0 where
  pub date : DateOnly
  pub window_start_minute : Minute

pub record SchedulePreviewInput : Type 0 where
  pub frequency_count : ℕ
  pub frequency_unit : FrequencyUnit
  pub frequency_interval : Option ℕ
  pub allowed_days : List Weekday
  pub preferred_days : List Weekday
  pub start_date : DateOnly
  pub end_date : Option DateOnly
  pub site_windows : List SiteWindow
  pub agreement_window_start_minute : Option Minute
  pub agreement_window_end_minute : Option Minute
  pub duration_minutes : ℕ
  pub horizon_weeks : Option ℕ
  pub from : Option DateOnly
  pub to : Option DateOnly
  pub blocked_slots : List BlockedSlot
  pub booked_dates : List DateOnly
  pub anchor_days : List ℕ
  pub whole_periods_only : Bool

pub record PreviewVisit : Type 0 where
  pub date : DateOnly
  pub weekday : Weekday
  pub window_start_minute : Minute
  pub window_end_minute : Minute
  pub is_preferred_day : Bool
  pub placement : VisitPlacement
  pub period_index : ℤ
  pub alternatives : List PreviewAlternative
  pub window_provenance : DataProvenance

pub data ShortfallReason : Type 0 where
  not_enough_allowed_days site_closed_on_allowed_days window_too_short_for_visit
        booked_below_frequency period_held_by_a_cancelled_visit :
      ShortfallReason

pub record PreviewShortfall : Type 0 where
  pub period_start : DateOnly
  pub period_end : DateOnly
  pub requested : ℕ
  pub scheduled : ℕ
  pub reason : ShortfallReason
  pub message : String

pub data BookingIssueReason : Type 0 where
  site_closed_on_booked_day window_too_short_for_booked_visit agreement_window_outside_site_hours
        booked_date_cancelled :
      BookingIssueReason

pub record PreviewBookingIssue : Type 0 where
  pub date : DateOnly
  pub reason : BookingIssueReason
  pub window_start_minute : Minute
  pub window_end_minute : Minute
  pub window_assumed : Bool
  pub message : String

-- The first and last day of a period are computed, so they are integers.
pub record PreviewPeriod : Type 0 where
  pub period_index : ℤ
  pub start : ℤ
  pub end : ℤ

-- A day that can take the visit, before anything has been chosen.
pub record Candidate : Type 0 where
  pub date : DateOnly
  pub weekday : Weekday
  pub window_start_minute : Minute
  pub window_end_minute : Minute
  pub is_preferred_day : Bool
  pub window_provenance : DataProvenance
  pub period : ℤ
  pub is_allowed_day : Bool

-- `Math.max(1, input.frequencyInterval ?? 1)`
abbrev pub interval_of : SchedulePreviewInput → ℕ
interval_of input = max 1 (get_or_else input.frequency_interval 1)

-- The later of the horizon's start and the agreement's.
abbrev pub effective_start : SchedulePreviewInput → DateOnly
effective_start input =
    let horizon_start : DateOnly = get_or_else input.from input.start_date in
    if ltb input.start_date horizon_start then horizon_start else input.start_date

abbrev pub horizon_end : SchedulePreviewInput → DateOnly
horizon_end input =
    get_or_else input.to (effective_start input + get_or_else input.horizon_weeks 4 * 7 - 1)

-- `agreementEnd && agreementEnd < horizonEnd ? agreementEnd : horizonEnd`
abbrev pub earlier_end : Option DateOnly → DateOnly → DateOnly
earlier_end none horizon = horizon
earlier_end (some end) horizon = if ltb end horizon then end else horizon

abbrev pub last_date : SchedulePreviewInput → DateOnly
last_date input = earlier_end input.end_date (horizon_end input)
