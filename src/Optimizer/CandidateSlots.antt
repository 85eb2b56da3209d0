-- ===== src/Optimizer/CandidateSlots.antt =====
-- apps/api/src/scheduling/optimizer/candidate-slots.ts: every legal day and start of a visit. A
-- `Date` at midnight is the number of its day.
use ultrakil_scheduling_syst.Prelude.{
  ℕ, ◌+◌, ◌-◌, min, max, Bool, true, false, Option, none, some, List, [], ◌∷◌, ◌++◌, has, null, ltb,
  map, filter, if◌then◌else◌, get_or_else, ◌==◌,
}
use ultrakil_scheduling_syst.Prelude.Int.{ℤ, pos_part}
use ultrakil_scheduling_syst.Domain.{DateOnly, Minute, Weekday, weekday_eq, FrequencyUnit}
use ultrakil_scheduling_syst.Catalog.Periods.{
  weekday_of, PeriodBounds, period_index_of, period_bounds_of,
}
use ultrakil_scheduling_syst.Catalog.Dates.{dates_between}
use ultrakil_scheduling_syst.Catalog.Windows.{
  DayWindow, SiteWindow, assumed_day_window, effective_windows, recorded_windows,
}
pub mod Days
pub mod Legal
mod Examples

pub record CandidateSlot : Type 0 where
  pub date : DateOnly
  pub earliest_start_minute : Minute
  pub latest_start_minute : Minute
  pub is_preferred : Bool

pub record SlotInput : Type 0 where
  pub visit_date : DateOnly
  pub agreement_start_date : DateOnly
  pub agreement_end_date : Option DateOnly
  pub frequency_unit : FrequencyUnit
  pub frequency_interval : ℕ
  pub allowed_days : List Weekday
  pub preferred_days : List Weekday
  pub site_windows : List SiteWindow
  pub agreement_start_minute : Option Minute
  pub agreement_end_minute : Option Minute
  pub duration_minutes : ℕ
  pub from : DateOnly
  pub to : DateOnly

-- `Math.max(1, interval)`
abbrev pub interval_of : SlotInput → ℕ
interval_of input = max 1 input.frequency_interval

unfoldable pub period_of : SlotInput → PeriodBounds
period_of input =
    period_bounds_of
      (period_index_of input.visit_date input.agreement_start_date input.frequency_unit
        (interval_of input))
      input.agreement_start_date input.frequency_unit (interval_of input)

-- The period holds the visit's date, so its end is a date. Its start may stand before day 0, and
-- then it is not the latest of the three.
unfoldable pub first_day : SlotInput → DateOnly
first_day input = max (max input.from input.agreement_start_date) (pos_part (period_of input).start)

unfoldable pub last_day : SlotInput → DateOnly
last_day input =
    min (min input.to (get_or_else input.agreement_end_date input.to))
      (pos_part (period_of input).end)

-- A site with no hours at all is taken to be open for the assumed day.
unfoldable pub day_windows : List SiteWindow → Weekday → List DayWindow
day_windows site_windows weekday =
    let recorded : List DayWindow = recorded_windows site_windows weekday in
    if null recorded then if null site_windows then assumed_day_window ∷ [] else [] else recorded

-- `latest < start`, with the duration on the other side.
unfoldable pub slots_of : SlotInput → DateOnly → List DayWindow → List CandidateSlot
slots_of input date [] = []
slots_of input date (window ∷ windows) =
    let rest : List CandidateSlot = slots_of input date windows in
    if ltb window.end_minute (window.start_minute + input.duration_minutes)
    then rest
    else record {
      date = date;
      earliest_start_minute = window.start_minute;
      latest_start_minute = window.end_minute - input.duration_minutes;
      is_preferred = has (weekday_of date) input.preferred_days;
    }
      ∷ rest

-- The body of the loop over the dates.
unfoldable pub slots_on : SlotInput → DateOnly → List CandidateSlot
unfolding slots_of
slots_on input date =
    if has (weekday_of date) input.allowed_days
    then slots_of input date (
        effective_windows (day_windows input.site_windows (weekday_of date))
          input.agreement_start_minute input.agreement_end_minute)
    else []

unfoldable pub slots_over : SlotInput → List DateOnly → List CandidateSlot
slots_over input [] = []
slots_over input (date ∷ dates) = slots_on input date ++ slots_over input dates

unfoldable pub build_candidate_slots : SlotInput → List CandidateSlot
unfolding slots_over
build_candidate_slots input =
    if null input.allowed_days
    then []
    else if ltb (last_day input) (first_day input)
    then []
    else slots_over input (dates_between (first_day input) (last_day input))

pub data DayRuleKind : Type 0 where
  allowed preferred : DayRuleKind

abbrev pub is_allowed : DayRuleKind → Bool
is_allowed allowed = true
is_allowed preferred = false

abbrev pub is_preferred_rule : DayRuleKind → Bool
is_preferred_rule preferred = true
is_preferred_rule allowed = false

-- The two lists of weekdays, allowed and preferred.
unfoldable pub split_day_rules : List (Weekday × DayRuleKind) → List Weekday × List Weekday
split_day_rules rules = (
  map (λ rule. rule.0) (filter (λ rule. is_allowed (rule.1)) rules),
  map (λ rule. rule.0) (filter (λ rule. is_preferred_rule (rule.1)) rules),
)
