-- ===== src/Optimizer/Moves.antt =====
-- apps/api/src/scheduling/optimizer/schedule-run.service.ts: `refuseOvercapMove`, and the loop that
-- commits a solve's proposals one after another. The judgement of a proposal reads the rows of the
-- transaction, so it is a parameter: a function of the entry, of the move and of what was persisted.
use ultrakil_scheduling_syst.Prelude.{
  ℕ, ◌+◌, Bool, true, false, not, ◌&&◌, Option, none, some, List, [], ◌∷◌, ◌++◌, String,
  if◌then◌else◌, is_some,
}
use ultrakil_scheduling_syst.Domain.{BranchCode, DateOnly, Minute}
use ultrakil_scheduling_syst.Eligibility.Conflicts.{Conflict}
use ultrakil_scheduling_syst.Eligibility.Facts.{AssignmentProposal}
use ultrakil_scheduling_syst.Eligibility.Rules.Judgement.{EligibilityResult}
use ultrakil_scheduling_syst.Optimizer.LoadLedger.{
  DailyLoadLedger, minutes_on, cap_on, admits_move_onto, record_move, daily_cap_refusal,
}
pub mod Caps
pub mod Crowding
pub mod Outcomes
pub mod Runs
pub mod Examples

pub record ProposedVisit : Type 0 where
  pub visit_date : DateOnly
  pub window_start_minute : Minute
  pub window_end_minute : Minute

pub record ProposedAssignment : Type 0 where
  pub visit_id : String
  pub dto : AssignmentProposal
  pub proposed_visit : Option ProposedVisit
  pub branch_code : BranchCode
  pub visit_date : DateOnly
  pub crew_minutes : ℕ

unfoldable pub refuse_onto :
    DailyLoadLedger → ProposedAssignment → Option ProposedVisit → Option Conflict
refuse_onto ledger entry none = none
refuse_onto ledger entry (some move) =
    if admits_move_onto ledger entry.branch_code move.visit_date entry.crew_minutes
    then none
    else some (
        daily_cap_refusal (record {
          visit_id = entry.visit_id;
          branch_code = entry.branch_code;
          proposed_date = move.visit_date;
          kept_date = entry.visit_date;
          carrying_minutes = minutes_on ledger entry.branch_code move.visit_date;
          visit_minutes = entry.crew_minutes;
          cap_minutes = cap_on ledger entry.branch_code move.visit_date;
        }))

-- The refusal, or nothing when the move may stand.
unfoldable pub refuse_overcap_move : DailyLoadLedger → ProposedAssignment → Option Conflict
refuse_overcap_move ledger entry = refuse_onto ledger entry entry.proposed_visit

-- What the transaction has done so far.
pub record RunState : Type 0 where
  pub ledger : DailyLoadLedger
  pub persisted : List (ProposedAssignment × Option ProposedVisit)
  pub recorded_unassigned : List (ProposedAssignment × List Conflict)
  pub scheduled : ℕ
  pub rejected : ℕ

abbrev pub unless_refused : Option Conflict → Option ProposedVisit → Option ProposedVisit
unless_refused none move = move
unless_refused (some refusal) move = none

abbrev pub refusal_first : Option Conflict → List Conflict → List Conflict
refusal_first none conflicts = conflicts
refusal_first (some refusal) conflicts = refusal ∷ conflicts

-- The ledger is told of a move once it is persisted.
abbrev pub record_if_moved :
    DailyLoadLedger → ProposedAssignment → Option ProposedVisit → DailyLoadLedger
record_if_moved ledger entry none = ledger
record_if_moved ledger entry (some move) =
    record_move ledger entry.branch_code entry.visit_date move.visit_date entry.crew_minutes

-- The last verdict decides: the assignment is persisted, or its reasons are recorded.
unfoldable pub settle_entry :
    RunState
    → ProposedAssignment
    → Option Conflict
    → Option ProposedVisit
    → EligibilityResult
    → RunState
settle_entry state entry refused move verdict =
    if verdict.is_eligible
    then record state {
      ledger = record_if_moved state.ledger entry move;
      persisted = state.persisted ++ (entry, move) ∷ [];
      scheduled = state.scheduled + 1;
    }
    else record state {
      recorded_unassigned =
          state.recorded_unassigned ++ (entry, refusal_first refused verdict.conflicts) ∷ [];
      rejected = state.rejected + 1;
    }

module _
    (evaluate : ProposedAssignment
      → Option ProposedVisit
      → List (ProposedAssignment × Option ProposedVisit)
      → EligibilityResult) where
  -- A move that the engine refuses is dropped, and the engine is asked again about the day kept.
  unfoldable pub apply_entry : RunState → ProposedAssignment → RunState
  apply_entry state entry =
      let refused : Option Conflict = refuse_overcap_move state.ledger entry in
      let move : Option ProposedVisit = unless_refused refused entry.proposed_visit in
      let verdict : EligibilityResult = evaluate entry move state.persisted in
      if not verdict.is_eligible && is_some move
      then settle_entry state entry refused none (evaluate entry none state.persisted)
      else settle_entry state entry refused move verdict

  unfoldable pub apply_entries : RunState → List ProposedAssignment → RunState
  apply_entries state [] = state
  apply_entries state (entry ∷ entries) = apply_entries (apply_entry state entry) entries
