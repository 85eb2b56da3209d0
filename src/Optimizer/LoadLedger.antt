-- ===== src/Optimizer/LoadLedger.antt =====
-- apps/api/src/scheduling/optimizer/daily-load-ledger.ts: the crew-minutes of each branch-day, kept
-- current as a solve's moves are applied, and the guarded move of schedule-run.service.ts.
use ultrakil_scheduling_syst.Prelude.{
  ℕ, ◌+◌, ◌-◌, max, Bool, true, false, Option, none, some, List, [], ◌∷◌, String, if◌then◌else◌,
  ◌==◌, nat_eq, pair_eq, leb, lookup, insert, get_or_else,
}
use ultrakil_scheduling_syst.Prelude.Text.{concat, show}
use ultrakil_scheduling_syst.Domain.{BranchCode, branch_eq, branch_name, DateOnly}
use ultrakil_scheduling_syst.Eligibility.Conflicts.{Conflict, daily_visit_cap_reached, about}
use ultrakil_scheduling_syst.Eligibility.Messages.{show_date}
pub mod Caps

-- `branchDayKey`: the text of the branch and the date, as the pair of them.
abbrev pub BranchDay : Type 0
BranchDay = BranchCode × DateOnly

abbrev pub branch_day_key : BranchCode → DateOnly → BranchDay
branch_day_key branch date = (branch, date)

-- `number | Map<string, number>`
pub data CapMinutes : Type 0 where
  same_everywhere : ℕ → CapMinutes
  each_day : List (BranchDay × ℕ) → CapMinutes

pub record DailyLoadLedger : Type 0 where
  pub minutes : List (BranchDay × ℕ)
  pub cap_minutes : CapMinutes

-- The constructor copies the map, so no later change of the caller's is seen.
unfoldable pub new_ledger : List (BranchDay × ℕ) → CapMinutes → DailyLoadLedger
new_ledger minutes cap_minutes = record { minutes = minutes; cap_minutes = cap_minutes }

unfoldable pub minutes_on : DailyLoadLedger → BranchCode → DateOnly → ℕ
minutes_on ledger branch date = get_or_else (lookup (branch_day_key branch date) ledger.minutes) 0

abbrev pub cap_of : CapMinutes → BranchDay → ℕ
cap_of (same_everywhere cap) key = cap
cap_of (each_day caps) key = get_or_else (lookup key caps) 0

unfoldable pub cap_on : DailyLoadLedger → BranchCode → DateOnly → ℕ
cap_on ledger branch date = cap_of ledger.cap_minutes (branch_day_key branch date)

unfoldable pub admits_move_onto : DailyLoadLedger → BranchCode → DateOnly → ℕ → Bool
admits_move_onto ledger branch date crew_minutes =
    leb (minutes_on ledger branch date + crew_minutes) (cap_on ledger branch date)

-- Subtraction stops at 0, which is `Math.max(0, … - crewMinutes)`.
unfoldable pub record_move :
    DailyLoadLedger → BranchCode → DateOnly → DateOnly → ℕ → DailyLoadLedger
record_move ledger branch from to crew_minutes =
    let origin : BranchDay = branch_day_key branch from in
    let target : BranchDay = branch_day_key branch to in
    let left : List (BranchDay × ℕ) =
      insert origin (get_or_else (lookup origin ledger.minutes) 0 - crew_minutes) ledger.minutes in
    if from == to then ledger else record ledger {
      minutes = insert target (get_or_else (lookup target left) 0 + crew_minutes) left;
    }

pub record CapRefusal : Type 0 where
  pub visit_id : String
  pub branch_code : BranchCode
  pub proposed_date : DateOnly
  pub kept_date : DateOnly
  pub carrying_minutes : ℕ
  pub visit_minutes : ℕ
  pub cap_minutes : ℕ

unfoldable pub daily_cap_refusal : CapRefusal → Conflict
daily_cap_refusal input = record {
  code = daily_visit_cap_reached;
  message = concat (
      "This visit is on "
      ∷ show_date input.kept_date
      ∷ ", where it was generated. The scheduler wanted to move it to "
      ∷ show_date input.proposed_date
      ∷ ", but that day already carries "
      ∷ show input.carrying_minutes
      ∷ " crew-minutes of work in "
      ∷ branch_name input.branch_code
      ∷ ", and this visit's own "
      ∷ show input.visit_minutes
      ∷ " would put it over the "
      ∷ show input.cap_minutes
      ∷ " crew-minutes a day this branch plans for, so the move was refused."
      ∷ []);
  remediation = concat (
      "Move or cancel work already on "
      ∷ show_date input.proposed_date
      ∷ " to make room, or assign a crew that can serve this visit on "
      ∷ show_date input.kept_date
      ∷ "."
      ∷ []);
  resources = about input.visit_id;
}
