-- ===== src/Generation/DayFeasibility.antt =====
-- apps/api/src/scheduling/visit-generation/day-feasibility.ts: the forced intervals, and the checks
-- of `checkDayFeasibility` on supervisors, crew and skills. The checks on transport, which stand
-- after these and rest on transport-allocation.ts, are not modelled.
use ultrakil_scheduling_syst.Prelude.{
  ℕ, ◌+◌, Bool, true, false, ◌&&◌, Option, none, some, List, [], ◌∷◌, ◌++◌, String, if◌then◌else◌,
  string_eq, ltb, nat_eqb, null, has, dedup, lookup, get_or_else, filter, length,
}
use ultrakil_scheduling_syst.Prelude.Int.{ℤ, pos, ◌-ℤ◌, ltb_ℤ, leb_ℤ}
use ultrakil_scheduling_syst.Prelude.Sort.{sort_by}
use ultrakil_scheduling_syst.Prelude.Text.{concat, show, str_ltb}
use ultrakil_scheduling_syst.Domain.{BranchCode, branch_name, DateOnly, Minute}
use ultrakil_scheduling_syst.Eligibility.Messages.{show_date}
pub mod Peak
pub mod Staffing
pub mod Examples

pub record DayVisitDemand : Type 0 where
  pub service_agreement_id : String
  pub window_start_minute : Minute
  pub window_end_minute : Minute
  pub duration_minutes : ℕ
  pub required_crew_size : ℕ
  pub required_skill_codes : List String

-- The people of a branch-day; its vehicles and walkers are read by the transport checks only.
pub record BranchDayWorkforce : Type 0 where
  pub total_employee_count : ℕ
  pub available_employee_count : ℕ
  pub available_pms_count : ℕ
  pub skill_holder_counts : List (String × ℕ)

pub data DayInfeasibilityCode : Type 0 where
  no_workforce_recorded no_pms_supervisor not_enough_supervisors_at_once not_enough_crew_at_once
        skill_not_held not_enough_skilled_at_once :
      DayInfeasibilityCode

pub record DayInfeasibility : Type 0 where
  pub branch_code : BranchCode
  pub date : DateOnly
  pub code : DayInfeasibilityCode
  pub message : String

pub record Span : Type 0 where
  pub start : ℤ
  pub end : ℤ

-- The window may be shorter than the visit, so the start may be negative.
unfoldable pub forced_interval : DayVisitDemand → Option Span
forced_interval visit =
    let start : ℤ = pos visit.window_end_minute -ℤ pos visit.duration_minutes in
    let end : ℤ = pos (visit.window_start_minute + visit.duration_minutes) in
    if ltb_ℤ start end then some (record { start = start; end = end }) else none

abbrev pub with_span :
    DayVisitDemand → Option Span → List (DayVisitDemand × Span) → List (DayVisitDemand × Span)
with_span visit none rest = rest
with_span visit (some span) rest = (visit, span) ∷ rest

-- `.map((visit) => ({ visit, span: forcedInterval(visit) })).filter((entry) => entry.span !== null)`
unfoldable pub forced_visits : List DayVisitDemand → List (DayVisitDemand × Span)
forced_visits [] = []
forced_visits (visit ∷ visits) = with_span visit (forced_interval visit) (forced_visits visits)

abbrev pub covers : ℤ → Span → Bool
covers at span = leb_ℤ span.start at && ltb_ℤ at span.end

module _ (weight : DayVisitDemand → ℕ) where
  -- The inner loop: the total over the intervals that hold the instant.
  unfoldable pub total_at : List (DayVisitDemand × Span) → ℤ → ℕ
  total_at [] at = 0
  total_at (other ∷ intervals) at =
      (if covers at other.1 then weight other.0 else 0) + total_at intervals at

  -- The outer loop, from the peak so far.
  unfoldable pub peak_from : List (DayVisitDemand × Span) → ℕ → List (DayVisitDemand × Span) → ℕ
  peak_from intervals peak [] = peak
  peak_from intervals peak (entry ∷ entries) =
      let total : ℕ = total_at intervals entry.1.start in
      peak_from intervals (if ltb peak total then total else peak) entries

  unfoldable pub peak_forced_demand : List DayVisitDemand → ℕ
  peak_forced_demand visits = peak_from (forced_visits visits) 0 (forced_visits visits)

-- `[...new Set(visits.flatMap((visit) => visit.requiredSkillCodes))].sort()`
unfoldable pub skills_of : List DayVisitDemand → List String
skills_of [] = []
skills_of (visit ∷ visits) = visit.required_skill_codes ++ skills_of visits

unfoldable pub required_skills : List DayVisitDemand → List String
required_skills visits = sort_by str_ltb (dedup (skills_of visits))

abbrev pub one : DayVisitDemand → ℕ
one visit = 1

abbrev pub crew_size : DayVisitDemand → ℕ
crew_size visit = visit.required_crew_size

abbrev pub needs : String → DayVisitDemand → Bool
needs skill visit = has skill visit.required_skill_codes

unfoldable pub holders_of : BranchDayWorkforce → String → ℕ
holders_of workforce skill = get_or_else (lookup skill workforce.skill_holder_counts) 0

module _ (branch_code : BranchCode) (date : DateOnly) where
  abbrev fail : DayInfeasibilityCode → List String → Option DayInfeasibility
  fail code message =
      some
        (record { branch_code = branch_code; date = date; code = code; message = concat message })

  -- The loop over the skills, one at a time.
  unfoldable pub skill_infeasibility :
      List DayVisitDemand → BranchDayWorkforce → List String → Option DayInfeasibility
  skill_infeasibility visits workforce [] = none
  skill_infeasibility visits workforce (skill ∷ skills) =
      let rest : Option DayInfeasibility = skill_infeasibility visits workforce skills in
      let holders : ℕ = holders_of workforce skill in
      let concurrent : ℕ = peak_forced_demand one (filter (needs skill) visits) in
      if nat_eqb holders 0
      then fail skill_not_held (
          "No "
          ∷ branch_name branch_code
          ∷ " employee available on "
          ∷ show_date date
          ∷ " holds "
          ∷ skill
          ∷ ", which work planned for that day requires."
          ∷ [])
      else if ltb holders concurrent
      then fail not_enough_skilled_at_once (
          show_date date
          ∷ " forces "
          ∷ show concurrent
          ∷ " visit(s) needing "
          ∷ skill
          ∷ " to run at the same time, but "
          ∷ branch_name branch_code
          ∷ " has "
          ∷ show holders
          ∷ " available employee(s) who hold it."
          ∷ [])
      else rest

  -- `checkDayFeasibility` down to the skills: the first proven reason, or nothing.
  unfoldable pub staffing_infeasibility :
      List DayVisitDemand → BranchDayWorkforce → Option DayInfeasibility
  staffing_infeasibility visits workforce =
      let branch : String = branch_name branch_code in
      let day : String = show_date date in
      let concurrent : ℕ = peak_forced_demand one visits in
      let crew : ℕ = peak_forced_demand crew_size visits in
      if null visits
      then none
      else if nat_eqb workforce.total_employee_count 0
      then fail no_workforce_recorded (
          branch
          ∷ " has no workforce recorded, so whether it can perform "
          ∷ show (length visits)
          ∷ " visit(s) on "
          ∷ day
          ∷ " is unknown."
          ∷ [])
      else if nat_eqb workforce.available_pms_count 0
      then fail no_pms_supervisor (
          branch ∷ " has no PMS-grade supervisor available on " ∷ day
          ∷ ", and every visit needs one." ∷ [])
      else if ltb workforce.available_pms_count concurrent
      then fail not_enough_supervisors_at_once (
          day
          ∷ " forces "
          ∷ show concurrent
          ∷ " visit(s) to run at the same time, each needing its own PMS-grade supervisor, but "
          ∷ branch
          ∷ " has "
          ∷ show workforce.available_pms_count
          ∷ " available."
          ∷ [])
      else if ltb workforce.available_employee_count crew
      then fail not_enough_crew_at_once (
          day
          ∷ " forces "
          ∷ show crew
          ∷ " people onto site at the same time, but "
          ∷ branch
          ∷ " has "
          ∷ show workforce.available_employee_count
          ∷ " available."
          ∷ [])
      else skill_infeasibility visits workforce (required_skills visits)
