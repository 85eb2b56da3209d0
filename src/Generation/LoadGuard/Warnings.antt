-- ===== src/Generation/LoadGuard/Warnings.antt =====
-- load-guard.ts: the days that still carry more than their cap, or work that cannot be performed.
use ultrakil_scheduling_syst.Prelude.{
  ℕ, ◌+◌, Bool, true, false, Option, none, some, List, [], ◌∷◌, ◌++◌, filter, String, lookup,
  length, ltb, leb, nat_eqb, nat_eq, pair_eq, ◌&&◌, not, if◌then◌else◌,
}
use ultrakil_scheduling_syst.Prelude.Text.{concat, join, show}
use ultrakil_scheduling_syst.Domain.{DateOnly, BranchCode, branch_eq, branch_name}
use ultrakil_scheduling_syst.Eligibility.Messages.{show_date}
use ultrakil_scheduling_syst.Generation.DayFeasibility.{DayInfeasibility, DayInfeasibilityCode}
use ultrakil_scheduling_syst.Generation.LoadGuard.{DayKey, CapacityByDay, capacity_of, amount, Slot}
use ultrakil_scheduling_syst.Generation.LoadGuard.Spread.{is_on, is_booked}

pub record Infeasibility : Type 0 where
  pub code : DayInfeasibilityCode
  pub message : String

pub record DailyLoadWarning : Type 0 where
  pub branch_code : BranchCode
  pub date : DateOnly
  pub planned_count : ℕ
  pub booked_count : ℕ
  pub planned_minutes : ℕ
  pub cap : ℕ
  pub message : String
  pub infeasibility : Option Infeasibility

pub data ClauseKind : Type 0 where
  of_booked of_standing : ClauseKind

unfoldable pub clause : ℕ → ClauseKind → Bool → String
clause n kind all =
    let head : String =
      if all
      then concat ("all " ∷ show n ∷ " are" ∷ [])
      else if nat_eqb n 1
      then "1 is"
      else concat (show n ∷ " are" ∷ []) in
    elim kind [
      | of_booked ↦ concat (
          head
          ∷ " "
          ∷ (if not all && nat_eqb n 1 then "a date" else "dates")
          ∷ " already booked with the customer"
          ∷ [])
      | of_standing ↦ concat (head ∷ " already in the calendar and not this run's to move" ∷ [])
    ]

unfoldable pub over_text : DayKey → ℕ → ℕ → ℕ → String
over_text key count minutes cap = concat (
    show_date (key.1)
    ∷ " carries "
    ∷ show count
    ∷ " "
    ∷ (if nat_eqb count 1 then "visit" else "visits")
    ∷ " in "
    ∷ branch_name (key.0)
    ∷ ", totalling "
    ∷ show minutes
    ∷ " crew-minutes of work — over the "
    ∷ show cap
    ∷ " crew-minutes a day this branch plans for."
    ∷ [])

-- Only the kinds of work that the day has are named.
unfoldable pub over_message : String → ℕ → ℕ → ℕ → String
unfolding clause
over_message over count booked_count standing_count =
    if leb count (booked_count + standing_count)
    then concat (
        over
        ∷ " None of them could be moved: "
        ∷ join ", and " (
            if nat_eqb standing_count 0
            then clause count of_booked true ∷ []
            else if nat_eqb booked_count 0
            then clause count of_standing true ∷ []
            else clause booked_count of_booked false ∷ clause standing_count of_standing false ∷ [])
        ∷ "."
        ∷ [])
    else join " " (
        over
        ∷ (if ltb 0 booked_count
            then concat (
                clause booked_count of_booked false
                ∷ ", and the rest had no other day inside their period to move to."
                ∷ [])
            else "None of them had another day inside their period to move to.")
        ∷ (if ltb 0 standing_count
            then concat (clause standing_count of_standing false ∷ "." ∷ []) ∷ []
            else []))

abbrev pub infeasibility_of : Option DayInfeasibility → Option Infeasibility
infeasibility_of none = none
infeasibility_of (some verdict) = some (record { code = verdict.code; message = verdict.message })

-- A verdict speaks for itself within the cap, and after the sentence on the cap beyond it.
abbrev pub message_with : Option DayInfeasibility → Bool → String → String
message_with none is_overloaded over = over
message_with (some verdict) true over = concat (over ∷ " " ∷ verdict.message ∷ [])
message_with (some verdict) false over = verdict.message

module _ (capacity : CapacityByDay) (slots : List Slot)
    (counts standing_per_day : List (DayKey × ℕ)) where
  unfoldable pub warning_of : DayKey × ℕ → Option DayInfeasibility → DailyLoadWarning
  unfolding over_text over_message
  warning_of entry verdict =
      let key : DayKey = entry.0 in
      let minutes : ℕ = entry.1 in
      let cap : ℕ = capacity_of capacity key in
      let booked_count : ℕ = length (filter (λ slot. is_on key slot && is_booked slot) slots) in
      record {
        branch_code = key.0;
        date = key.1;
        planned_count = amount key counts;
        booked_count = booked_count;
        planned_minutes = minutes;
        cap = cap;
        message = message_with verdict (ltb cap minutes) (
            over_message (over_text key (amount key counts) minutes cap) (amount key counts)
              booked_count (amount key standing_per_day));
        infeasibility = infeasibility_of verdict;
      }

  abbrev pub warns : DayKey × ℕ → Option DayInfeasibility → List DailyLoadWarning
  warns entry (some verdict) = warning_of entry (some verdict) ∷ []
  warns entry none =
      if leb (entry.1) (capacity_of capacity (entry.0)) then [] else warning_of entry none ∷ []

  unfoldable pub warnings_over :
      List (DayKey × DayInfeasibility) → List (DayKey × ℕ) → List DailyLoadWarning
  unfolding warning_of
  warnings_over infeasible [] = []
  warnings_over infeasible (entry ∷ entries) =
      warns entry (lookup (entry.0) infeasible) ++ warnings_over infeasible entries
