-- ===== src/Optimizer/Moves/Caps.antt =====
-- apps/api/src/scheduling/optimizer/schedule-run.service.ts: the cap on a branch-day across the
-- whole run, whatever the solver proposed and whatever the engine judged.
use ultrakil_scheduling_syst.Prelude.{
  ◌+◌, ◌≤◌, max, ◌≡◌, refl, ap, ◌∙◌, ◌↔◌, inl, inr, true, not, ◌&&◌, Option, none, some, List, [],
  ◌∷◌, Bool-cases, is_some, arith,
}
use ultrakil_scheduling_syst.Domain.{BranchCode, DateOnly}
use ultrakil_scheduling_syst.Eligibility.Conflicts.{Conflict}
use ultrakil_scheduling_syst.Eligibility.Rules.Judgement.{EligibilityResult}
use ultrakil_scheduling_syst.Optimizer.LoadLedger.{
  DailyLoadLedger, minutes_on, cap_on, admits_move_onto, cap_of,
}
use ultrakil_scheduling_syst.Optimizer.LoadLedger.Caps.{record_move-le, cap_on-record_move}
use ultrakil_scheduling_syst.Optimizer.Moves.{
  ProposedVisit, ProposedAssignment, RunState, refuse_onto, refuse_overcap_move, unless_refused,
  record_if_moved, settle_entry, apply_entry, apply_entries,
}

-- The later ledger has the same caps, and every day is within its cap or no fuller than before.
pub record StaysWithin (before after : DailyLoadLedger) : Type 0 where
  pub same_caps : after.cap_minutes ≡ before.cap_minutes
  pub within :
      (branch : BranchCode) (day : DateOnly)
      → minutes_on after branch day ≤ max (minutes_on before branch day) (cap_on before branch day)

-- A move is refused exactly when the visit's crew-minutes would put its day over the cap.
pub refuse_overcap_move-cap :
    (ledger : DailyLoadLedger) (entry : ProposedAssignment) (move : ProposedVisit)
    → entry.proposed_visit ≡ some move
    → (refuse_overcap_move ledger entry ≡ none) ↔ (
        minutes_on ledger entry.branch_code move.visit_date + entry.crew_minutes
        ≤ cap_on ledger entry.branch_code move.visit_date)
unfolding refuse_overcap_move refuse_onto admits_move_onto
refuse_overcap_move-cap ledger entry move e = rw e (ground arith)

module _ (before : DailyLoadLedger) where
  StaysWithin-refl : StaysWithin before before
  StaysWithin-refl = record { same_caps = refl; within = λ branch day. omega arith }

  StaysWithin-trans :
      (middle after : DailyLoadLedger)
      → StaysWithin before middle
      → StaysWithin middle after
      → StaysWithin before after
  unfolding cap_on
  StaysWithin-trans middle after h k = record {
    same_caps = k.same_caps ∙ h.same_caps;
    within = λ branch day.
        let caps = ap (λ c. cap_of c (branch, day)) h.same_caps in
        omega (arith, h.within branch day, k.within branch day, caps);
  }

record_if_moved-StaysWithin :
    (ledger : DailyLoadLedger) (entry : ProposedAssignment) (move : Option ProposedVisit)
    → ((m : ProposedVisit)
        → move ≡ some m
        → admits_move_onto ledger entry.branch_code m.visit_date entry.crew_minutes ≡ true)
    → StaysWithin ledger (record_if_moved ledger entry move)
record_if_moved-StaysWithin ledger entry none h = StaysWithin-refl ledger
record_if_moved-StaysWithin ledger entry (some m) h = record {
  same_caps =
      cap_on-record_move ledger entry.branch_code entry.visit_date m.visit_date entry.crew_minutes;
  within = λ branch day.
      record_move-le ledger entry.branch_code entry.visit_date m.visit_date entry.crew_minutes
        branch day (h m refl);
}

settle_entry-StaysWithin :
    (state : RunState) (entry : ProposedAssignment) (refused : Option Conflict)
    (move : Option ProposedVisit) (verdict : EligibilityResult)
    → ((m : ProposedVisit)
        → move ≡ some m
        → admits_move_onto state.ledger entry.branch_code m.visit_date entry.crew_minutes ≡ true)
    → StaysWithin state.ledger (settle_entry state entry refused move verdict).ledger
unfolding settle_entry
settle_entry-StaysWithin state entry refused move verdict h =
    elim (Bool-cases verdict.is_eligible) [
      | inl t ↦ rw t (record_if_moved-StaysWithin state.ledger entry move h)
      | inr f ↦ rw f (StaysWithin-refl state.ledger)
    ]

kept_onto :
    (ledger : DailyLoadLedger) (entry : ProposedAssignment) (proposed : Option ProposedVisit)
    (m : ProposedVisit)
    → unless_refused (refuse_onto ledger entry proposed) proposed ≡ some m
    → admits_move_onto ledger entry.branch_code m.visit_date entry.crew_minutes ≡ true
unfolding refuse_onto
kept_onto ledger entry none m h = absurd (cc)
kept_onto ledger entry (some p) m h =
    elim (Bool-cases (admits_move_onto ledger entry.branch_code p.visit_date entry.crew_minutes)) [
      | inl t ↦ let kept : some p ≡ some m = rw t at h in let same : p ≡ m = cc in rw (← same) t
      | inr f ↦ absurd (let lost : none ≡ some m = rw f at h in cc)
    ]

pub kept_move :
    (ledger : DailyLoadLedger) (entry : ProposedAssignment) (m : ProposedVisit)
    → unless_refused (refuse_overcap_move ledger entry) entry.proposed_visit ≡ some m
    → admits_move_onto ledger entry.branch_code m.visit_date entry.crew_minutes ≡ true
unfolding refuse_overcap_move
kept_move ledger entry m h = kept_onto ledger entry entry.proposed_visit m h

module _
    (evaluate : ProposedAssignment
      → Option ProposedVisit
      → List (ProposedAssignment × Option ProposedVisit)
      → EligibilityResult) where
  apply_entry-StaysWithin :
      (state : RunState) (entry : ProposedAssignment)
      → StaysWithin state.ledger (apply_entry evaluate state entry).ledger
  unfolding apply_entry
  apply_entry-StaysWithin state entry =
      let refused = refuse_overcap_move state.ledger entry in
      let move = unless_refused refused entry.proposed_visit in
      let verdict = evaluate entry move state.persisted in
      elim (Bool-cases (not verdict.is_eligible && is_some move)) [
        | inl t ↦ rw t (
            settle_entry-StaysWithin state entry refused none (evaluate entry none state.persisted)
              (λ m e. absurd (cc)))
        | inr f ↦ rw f (
            settle_entry-StaysWithin state entry refused move verdict
              (kept_move state.ledger entry))
      ]

  pub apply_entries-StaysWithin :
      (state : RunState) (entries : List ProposedAssignment)
      → StaysWithin state.ledger (apply_entries evaluate state entries).ledger
  unfolding apply_entries
  apply_entries-StaysWithin state [] = StaysWithin-refl state.ledger
  apply_entries-StaysWithin state (entry ∷ entries) =
      let next = apply_entry evaluate state entry in
      StaysWithin-trans state.ledger next.ledger (apply_entries evaluate next entries).ledger
        (apply_entry-StaysWithin state entry) (apply_entries-StaysWithin next entries)
