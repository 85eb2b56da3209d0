-- ===== src/Optimizer/Moves/Outcomes.antt =====
-- apps/api/src/scheduling/optimizer/schedule-run.service.ts: what becomes of each proposal.
use ultrakil_scheduling_syst.Prelude.{
  ◌+◌, ◌≤◌, ◌≡◌, refl, inl, inr, true, false, not, ◌&&◌, Option, none, some, List, [], ◌∷◌, ◌++◌,
  Bool-cases, is_some, arith,
}
use ultrakil_scheduling_syst.Eligibility.Conflicts.{Conflict}
use ultrakil_scheduling_syst.Eligibility.Rules.Judgement.{EligibilityResult}
use ultrakil_scheduling_syst.Optimizer.LoadLedger.{
  DailyLoadLedger, minutes_on, cap_on, admits_move_onto,
}
use ultrakil_scheduling_syst.Optimizer.Moves.{
  ProposedVisit, ProposedAssignment, RunState, refuse_overcap_move, unless_refused, refusal_first,
  settle_entry, apply_entry,
}
use ultrakil_scheduling_syst.Optimizer.Moves.Caps.{kept_move, refuse_overcap_move-cap}

abbrev pub Persisted : Type 0
Persisted = List (ProposedAssignment × Option ProposedVisit)

abbrev pub Recorded : Type 0
Recorded = List (ProposedAssignment × List Conflict)

-- The day of the move has room for the visit's crew-minutes.
abbrev pub FitsCap : DailyLoadLedger → ProposedAssignment → ProposedVisit → Type 0
FitsCap ledger entry m =
    minutes_on ledger entry.branch_code m.visit_date + entry.crew_minutes
    ≤ cap_on ledger entry.branch_code m.visit_date

admits-FitsCap :
    (ledger : DailyLoadLedger) (entry : ProposedAssignment) (m : ProposedVisit)
    → admits_move_onto ledger entry.branch_code m.visit_date entry.crew_minutes ≡ true
    → FitsCap ledger entry m
unfolding admits_move_onto
admits-FitsCap ledger entry m h = ground arith

unrefused :
    (refused : Option Conflict) (proposed : Option ProposedVisit) (m : ProposedVisit)
    → unless_refused refused proposed ≡ some m
    → proposed ≡ some m
unrefused none proposed m e = e
unrefused (some c) proposed m e = absurd (cc)

module _
    (evaluate : ProposedAssignment → Option ProposedVisit → Persisted → EligibilityResult) where
  -- The proposal is accepted with this move, or without one: the move is the one proposed, its day
  -- has room for it, and no move is dropped that has room and that the engine accepts.
  pub record IsAccepted (ledger : DailyLoadLedger) (before : Persisted) (entry : ProposedAssignment)
      (move : Option ProposedVisit) : Type 0 where
    pub engine_accepts : (evaluate entry move before).is_eligible ≡ true
    pub is_proposed :
        (m : ProposedVisit)
        → move ≡ some m
        → (entry.proposed_visit ≡ some m) × FitsCap ledger entry m
    pub keeps_move :
        (m : ProposedVisit)
        → entry.proposed_visit ≡ some m
        → FitsCap ledger entry m
        → (evaluate entry (some m) before).is_eligible ≡ true
        → move ≡ some m

  -- What one proposal does to the run.
  pub data IsSettled (before : RunState) (entry : ProposedAssignment) (after : RunState)
      : Type 0 where
    persists :
        (move : Option ProposedVisit)
        → IsAccepted before.ledger before.persisted entry move
        → after.persisted ≡ before.persisted ++ (entry, move) ∷ []
        → after.recorded_unassigned ≡ before.recorded_unassigned
        → after.scheduled ≡ before.scheduled + 1
        → after.rejected ≡ before.rejected
        → IsSettled before entry after
    records :
        (evaluate entry none before.persisted).is_eligible ≡ false
        → after.persisted ≡ before.persisted
        → after.recorded_unassigned
          ≡ before.recorded_unassigned
            ++ (
              entry,
              refusal_first
                  (refuse_overcap_move before.ledger entry)
                  (evaluate entry none before.persisted).conflicts,
            )
              ∷ []
        → after.scheduled ≡ before.scheduled
        → after.rejected ≡ before.rejected + 1
        → IsSettled before entry after

  settle_entry-IsSettled :
      (state : RunState) (entry : ProposedAssignment) (move : Option ProposedVisit)
      → ((evaluate entry move state.persisted).is_eligible ≡ true
          → IsAccepted state.ledger state.persisted entry move)
      → ((evaluate entry move state.persisted).is_eligible ≡ false → move ≡ none)
      → IsSettled state entry (
          settle_entry state entry
            (refuse_overcap_move state.ledger entry)
            move
            (evaluate entry move state.persisted))
  unfolding settle_entry
  settle_entry-IsSettled state entry move accepted bare =
      elim (Bool-cases (evaluate entry move state.persisted).is_eligible) [
        | inl t ↦ rw t (persists move (accepted t) refl refl refl refl)
        | inr f ↦
            let none_ : move ≡ none = bare f in
            let g : (evaluate entry none state.persisted).is_eligible ≡ false = rw none_ at f in
            rw (none_, g) (records g refl refl refl refl)
      ]

  pub apply_entry-IsSettled :
      (state : RunState) (entry : ProposedAssignment)
      → IsSettled state entry (apply_entry evaluate state entry)
  unfolding apply_entry
  apply_entry-IsSettled state entry =
      elim (Bool-cases (not (evaluate entry move state.persisted).is_eligible && is_some move)) [
        | inl t ↦ rw t (
            settle_entry-IsSettled state entry none
              (λ e. record {
                engine_accepts = e;
                is_proposed = λ m n. absurd (cc);
                keeps_move = λ m p fits ok. absurd (lost m p fits ok t);
              })
              (λ f. refl))
        | inr f ↦ rw f (
            settle_entry-IsSettled state entry move
              (λ e. record {
                engine_accepts = e;
                is_proposed = λ m n. (
                  unrefused (refuse_overcap_move state.ledger entry) entry.proposed_visit m n,
                  admits-FitsCap state.ledger entry m (kept_move state.ledger entry m n),
                );
                keeps_move = λ m p fits ok. moved m p fits;
              })
              (bare move f))
      ]
    where
      move : Option ProposedVisit
      move = unless_refused (refuse_overcap_move state.ledger entry) entry.proposed_visit

      moved :
          (m : ProposedVisit)
          → entry.proposed_visit ≡ some m
          → FitsCap state.ledger entry m
          → unless_refused (refuse_overcap_move state.ledger entry) entry.proposed_visit ≡ some m
      moved m p fits = rw ((refuse_overcap_move-cap state.ledger entry m p).1 fits) p

      lost :
          (m : ProposedVisit)
          → entry.proposed_visit ≡ some m
          → FitsCap state.ledger entry m
          → (evaluate entry (some m) state.persisted).is_eligible ≡ true
          → (not
                (evaluate entry
                  (unless_refused (refuse_overcap_move state.ledger entry) entry.proposed_visit)
                  state.persisted).is_eligible
              && is_some
                  (unless_refused (refuse_overcap_move state.ledger entry) entry.proposed_visit))
            ≡ true
          → ⊥
      lost m p fits ok t =
          let t' : (not (evaluate entry (some m) state.persisted).is_eligible && true) ≡ true =
            rw (moved m p fits) at t in
          ground (arith, ok, t')

      bare :
          (m : Option ProposedVisit)
          → (not (evaluate entry m state.persisted).is_eligible && is_some m) ≡ false
          → (evaluate entry m state.persisted).is_eligible ≡ false
          → m ≡ none
      bare none f g = refl
      bare (some m) f g = ground (arith, f, g)

  -- A proposal that the engine accepts on the day the visit stands on is persisted, as the next row
  -- of the transaction and counted as scheduled, whether its move is refused by the cap or by the
  -- engine: with the proposed move if that has room and the engine accepts it, else without one.
  pub apply_entry_staffs :
      (state : RunState) (entry : ProposedAssignment)
      → (evaluate entry none state.persisted).is_eligible ≡ true
      → (move : Option ProposedVisit) × ((apply_entry evaluate state entry).persisted
          ≡ state.persisted ++ (entry, move) ∷ [])
        × IsAccepted state.ledger state.persisted entry move
        × ((apply_entry evaluate state entry).recorded_unassigned ≡ state.recorded_unassigned)
        × ((apply_entry evaluate state entry).scheduled ≡ state.scheduled + 1)
  apply_entry_staffs state entry kept = settled (apply_entry-IsSettled state entry)
    where
      settled :
          {after : RunState}
          → IsSettled state entry after
          → (move : Option ProposedVisit) × (after.persisted
              ≡ state.persisted ++ (entry, move) ∷ [])
            × IsAccepted state.ledger state.persisted entry move
            × (after.recorded_unassigned ≡ state.recorded_unassigned)
            × (after.scheduled ≡ state.scheduled + 1)
      settled (persists move accepted p r s j) = (move, p, accepted, r, s)
      settled (records refused p r s j) = absurd (cc)
