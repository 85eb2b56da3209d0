-- ===== src/Optimizer/Moves/Runs.antt =====
-- apps/api/src/scheduling/optimizer/schedule-run.service.ts: the outcomes of a run, one for each
-- proposal.
use ultrakil_scheduling_syst.Prelude.{
  ◌+◌, ◌≡◌, true, false, Option, none, List, [], ◌∷◌, ◌++◌, length,
}
use ultrakil_scheduling_syst.Eligibility.Conflicts.{Conflict}
use ultrakil_scheduling_syst.Eligibility.Rules.Judgement.{EligibilityResult}
use ultrakil_scheduling_syst.Optimizer.Moves.{
  ProposedVisit, ProposedAssignment, RunState, refusal_first,
}
use ultrakil_scheduling_syst.Optimizer.Moves.Outcomes.{Persisted, Recorded}

module _
    (evaluate : ProposedAssignment → Option ProposedVisit → Persisted → EligibilityResult) where
  -- The proposals in turn, each settled once: persisted next in `persisted`, or recorded next in
  -- `recorded`. `before` is what the transaction holds when the engine is asked.
  pub data HasOutcomes : Persisted → List ProposedAssignment → Persisted → Recorded → Type 0 where
    no_more : (before : Persisted) → HasOutcomes before [] [] []
    persisted_next :
        (before : Persisted) (entry : ProposedAssignment) (move : Option ProposedVisit)
        (entries : List ProposedAssignment) (persisted : Persisted) (recorded : Recorded)
        → (evaluate entry move before).is_eligible ≡ true
        → HasOutcomes (before ++ (entry, move) ∷ []) entries persisted recorded
        → HasOutcomes before (entry ∷ entries) ((entry, move) ∷ persisted) recorded
    recorded_next :
        (before : Persisted) (entry : ProposedAssignment) (refused : Option Conflict)
        (conflicts : List Conflict) (entries : List ProposedAssignment) (persisted : Persisted)
        (recorded : Recorded)
        → (evaluate entry none before).is_eligible ≡ false
        → conflicts ≡ refusal_first refused (evaluate entry none before).conflicts
        → HasOutcomes before entries persisted recorded
        → HasOutcomes before (entry ∷ entries) persisted ((entry, conflicts) ∷ recorded)

  -- What the run adds to the two lists of the transaction, and to its counters.
  pub record Adds (before after : RunState) (persisted : Persisted) (recorded : Recorded)
      : Type 0 where
    pub adds_persisted : after.persisted ≡ before.persisted ++ persisted
    pub adds_recorded : after.recorded_unassigned ≡ before.recorded_unassigned ++ recorded
    pub adds_scheduled : after.scheduled ≡ before.scheduled + length persisted
    pub adds_rejected : after.rejected ≡ before.rejected + length recorded

  abbrev pub Settles : RunState → List ProposedAssignment → RunState → Type 0
  Settles before entries after =
      (persisted : Persisted) × (recorded : Recorded) × HasOutcomes before.persisted entries
        persisted recorded
      × Adds before after persisted recorded
