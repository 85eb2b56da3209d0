-- ===== src/Optimizer/Moves/Examples.antt =====
-- Two days of a branch, a move that fits and one that does not.
use ultrakil_scheduling_syst.Prelude.{
  ℕ, ◌+◌, ◌≤◌, max, ◌++◌, ◌≡◌, refl, true, some, Option, List, [], ◌∷◌, String, nat_eq, lookup,
  insert,
}
use ultrakil_scheduling_syst.Prelude.Int.{pos}
use ultrakil_scheduling_syst.Domain.{colombo, BranchCode-discrete}
use ultrakil_scheduling_syst.Eligibility.Rules.Judgement.{EligibilityResult}
use ultrakil_scheduling_syst.Optimizer.LoadLedger.{
  DailyLoadLedger, each_day, minutes_on, cap_on, admits_move_onto, record_move,
}
use ultrakil_scheduling_syst.Optimizer.Moves.{
  ProposedVisit, ProposedAssignment, RunState, refuse_overcap_move, refuse_onto, settle_entry,
  apply_entry, apply_entries,
}
use ultrakil_scheduling_syst.Optimizer.Moves.Crowding.{moved_onto, moved_off, apply_entries-cap}
use ultrakil_scheduling_syst.Optimizer.Moves.Outcomes.{Persisted, IsAccepted, apply_entry_staffs}

abbrev ledger : DailyLoadLedger
ledger = record {
  minutes = ((colombo, 1), 400) ∷ ((colombo, 2), 650) ∷ [];
  cap_minutes = each_day (((colombo, 1), 720) ∷ ((colombo, 2), 720) ∷ []);
}

abbrev onto : ℕ → ProposedVisit
onto day = record { visit_date = day; window_start_minute = 480; window_end_minute = 1020 }

abbrev moving : String → ℕ → ProposedAssignment
moving id crew_minutes = record {
  visit_id = id;
  dto = record {
    planned_start_minute = pos 540;
    planned_end_minute = pos 600;
    crew = [];
    vehicles = [];
  };
  proposed_visit = some (onto 2);
  branch_code = colombo;
  visit_date = 1;
  crew_minutes = crew_minutes;
}

abbrev start : RunState
start = record {
  ledger = ledger;
  persisted = [];
  recorded_unassigned = [];
  scheduled = 0;
  rejected = 0;
}

-- An engine that accepts everything.
abbrev verdict :
    ProposedAssignment
    → Option ProposedVisit
    → List (ProposedAssignment × Option ProposedVisit)
    → EligibilityResult
verdict entry move done = record { is_eligible = true; conflicts = [] }

abbrev entries : List ProposedAssignment
entries = moving "a" 60 ∷ moving "b" 60 ∷ []

-- The first move fits on the second day; the second would put it over its cap, and stays.
test_run :
    (minutes_on (apply_entries verdict start entries).ledger colombo 2 ≡ 710)
    × (minutes_on (apply_entries verdict start entries).ledger colombo 1 ≡ 340)
    × ((apply_entries verdict start entries).scheduled ≡ 2)
unfolding apply_entries apply_entry settle_entry refuse_overcap_move refuse_onto admits_move_onto
    record_move minutes_on cap_on lookup insert BranchCode-discrete
test_run = (refl, refl, refl)

apply_entries-cap_example :
    (rows : Persisted) × ((apply_entries verdict start entries).persisted ≡ [] ++ rows)
    × (minutes_on ledger colombo 2 + moved_onto colombo 2 rows
        ≤ max (minutes_on ledger colombo 2) (cap_on ledger colombo 2) + moved_off colombo 2 rows)
apply_entries-cap_example = apply_entries-cap colombo 2 verdict start entries

apply_entry_staffs_example :
    (move : Option ProposedVisit) × ((apply_entry verdict start (moving "b" 120)).persisted
      ≡ [] ++ (moving "b" 120, move) ∷ [])
    × IsAccepted verdict ledger [] (moving "b" 120) move
    × ((apply_entry verdict start (moving "b" 120)).recorded_unassigned ≡ [])
    × ((apply_entry verdict start (moving "b" 120)).scheduled ≡ 1)
apply_entry_staffs_example = apply_entry_staffs verdict start (moving "b" 120) refl
