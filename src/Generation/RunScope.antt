-- ===== src/Generation/RunScope.antt =====
-- apps/api/src/scheduling/visit-generation/run-scope.ts, and the `AgreementPeriodShape` of
-- protected-periods.ts: which visits of the calendar a run may speak for. A map by the agreement's
-- id is an association list, the set of an agreement's planned periods a list.
use ultrakil_scheduling_syst.Prelude.{
  ℕ, ◌≤◌, ◌<◌, ◌≡◌, ◌⊎◌, Bool, true, false, not, ◌||◌, Option, none, some, List, String, has, In,
  lookup, string_eq, ltb, if◌then◌else◌,
}
use ultrakil_scheduling_syst.Prelude.Int.{ℤ, int_eq}
use ultrakil_scheduling_syst.Domain.{DateOnly, Weekday, FrequencyUnit}
use ultrakil_scheduling_syst.Catalog.Periods.{period_index_of}
pub mod Judged
mod Examples

pub record AgreementPeriodShape : Type 0 where
  pub service_agreement_id : String
  pub anchor : DateOnly
  pub frequency_unit : FrequencyUnit
  pub frequency_interval : ℕ
  pub allowed_days : List Weekday

pub record AgreementLifetime : Type 0 where
  pub start : DateOnly
  pub end : Option DateOnly

pub record ScopedVisit : Type 0 where
  pub service_agreement_id : String
  pub visit_date : DateOnly

pub record Range : Type 0 where
  pub from : DateOnly
  pub to : DateOnly

-- `end !== null && date > end`
abbrev pub is_over : DateOnly → Option DateOnly → Bool
is_over date none = false
is_over date (some end) = ltb end date

-- `plannedPeriods.get(id)?.has(period) ?? false`
abbrev pub is_planned : ℤ → Option (List ℤ) → Bool
is_planned period none = false
is_planned period (some periods) = has period periods

module _ (shapes : List (String × AgreementPeriodShape)) (planned_periods : List (String × List ℤ))
    (lives : List (String × AgreementLifetime)) where
  unfoldable pub judges_period : ScopedVisit → Option AgreementPeriodShape → Bool
  judges_period visit none = false
  judges_period visit (some shape) =
      is_planned
        (period_index_of visit.visit_date shape.anchor shape.frequency_unit
          shape.frequency_interval)
        (lookup visit.service_agreement_id planned_periods)

  unfoldable pub judges_life : ScopedVisit → Option AgreementLifetime → Bool
  judges_life visit none = false
  judges_life visit (some life) =
      let planned : Bool = judges_period visit (lookup visit.service_agreement_id shapes) in
      if ltb visit.visit_date life.start
      then true
      else if is_over visit.visit_date life.end
      then true
      else planned

  unfoldable pub this_runs_to_judge : ScopedVisit → Range → Bool
  this_runs_to_judge visit range =
      if ltb visit.visit_date range.from || ltb range.to visit.visit_date
      then false
      else judges_life visit (lookup visit.service_agreement_id lives)

  unfoldable pub left_standing_by : ScopedVisit → Bool → Bool → Range → Bool
  left_standing_by visit is_protected is_in_scope range =
      if not is_in_scope
      then true
      else if is_protected
      then true
      else not (this_runs_to_judge visit range)
