-- ===== src/Optimizer/Moves/Crowding.antt =====
-- apps/api/src/scheduling/optimizer/schedule-run.service.ts: the crew-minutes that the persisted moves
-- put on a day, against the cap.
use ultrakil_scheduling_syst.Prelude.{
  ℕ, ◌+◌, ◌≤◌, max, ◌≡◌, refl, ap, sym, ◌∙◌, inl, inr, true, not, ◌&&◌, Option, none, some, List,
  [], ◌∷◌, ◌++◌, Bool-cases, is_some, arith, if◌then◌else◌, ◌==◌, nat_eq, pair_eq,
}
use mathlib.Core.List.{append_assoc, append-nil}
use ultrakil_scheduling_syst.Domain.{BranchCode, DateOnly, branch_eq}
use ultrakil_scheduling_syst.Eligibility.Conflicts.{Conflict}
use ultrakil_scheduling_syst.Eligibility.Rules.Judgement.{EligibilityResult}
use ultrakil_scheduling_syst.Optimizer.LoadLedger.{DailyLoadLedger, minutes_on, cap_on, record_move}
use ultrakil_scheduling_syst.Optimizer.LoadLedger.Caps.{same_day, minutes_on-record_move}
use ultrakil_scheduling_syst.Optimizer.Moves.{
  ProposedVisit, ProposedAssignment, RunState, refuse_overcap_move, unless_refused, record_if_moved,
  settle_entry, apply_entry, apply_entries,
}
use ultrakil_scheduling_syst.Optimizer.Moves.Caps.{apply_entries-StaysWithin}
use ultrakil_scheduling_syst.Optimizer.Moves.Outcomes.{Persisted}

module _ (branch : BranchCode) (day : DateOnly) where
  abbrev pub minutes_if : BranchCode → DateOnly → ℕ → ℕ
  minutes_if b d crew = if same_day (b, d) (branch, day) then crew else 0

  -- The crew-minutes of the visits that were persisted with a move onto the day, and off it.
  abbrev pub moved_onto : Persisted → ℕ
  moved_onto [] = 0
  moved_onto ((entry, none) ∷ rows) = moved_onto rows
  moved_onto ((entry, some m) ∷ rows) =
      minutes_if entry.branch_code m.visit_date entry.crew_minutes + moved_onto rows

  abbrev pub moved_off : Persisted → ℕ
  moved_off [] = 0
  moved_off ((entry, none) ∷ rows) = moved_off rows
  moved_off ((entry, some m) ∷ rows) =
      minutes_if entry.branch_code entry.visit_date entry.crew_minutes + moved_off rows

  -- The ledger has at least what the rows persisted since put on the day.
  abbrev Carries : DailyLoadLedger → DailyLoadLedger → Persisted → Type 0
  Carries before after rows =
      minutes_on before branch day + moved_onto rows ≤ minutes_on after branch day + moved_off rows

  here_iff :
      (b : BranchCode) (d : DateOnly)
      → same_day (b, d) (branch, day) ≡ true
      → (ledger : DailyLoadLedger) → minutes_on ledger b d ≡ minutes_on ledger branch day
  here_iff b d t ledger =
      let same : (b, d) ≡ (branch, day) = (pair_eq.beq_iff (b, d) (branch, day)).0 t in
      ap (λ k. minutes_on ledger k.0 k.1) same

  carries_move :
      (ledger : DailyLoadLedger) (b : BranchCode) (from to : DateOnly) (crew : ℕ)
      → minutes_on ledger branch day + minutes_if b to crew
        ≤ minutes_on (record_move ledger b from to crew) branch day + minutes_if b from crew
  carries_move ledger b from to crew =
      rw (minutes_on-record_move ledger b from to crew branch day) (elim (Bool-cases (from == to)) [
        | inl t ↦ let same : from ≡ to = (nat_eq.beq_iff from to).0 t in rw (t, same) (omega arith)
        | inr f ↦ rw f (elim (Bool-cases (same_day (b, to) (branch, day))) [
          | inl onto ↦ rw onto (omega (arith, here_iff b to onto ledger))
          | inr elsewhere ↦ rw elsewhere (elim (Bool-cases (same_day (b, from) (branch, day))) [
            | inl off ↦ rw off (omega (arith, here_iff b from off ledger))
            | inr away ↦ rw away (omega arith)
          ])
        ])
      ])

  record_if_moved-Carries :
      (ledger : DailyLoadLedger) (entry : ProposedAssignment) (move : Option ProposedVisit)
      → Carries ledger (record_if_moved ledger entry move) ((entry, move) ∷ [])
  record_if_moved-Carries ledger entry none = omega arith
  record_if_moved-Carries ledger entry (some m) = omega (
    arith,
    carries_move ledger entry.branch_code entry.visit_date m.visit_date entry.crew_minutes,
  )

  moved_onto-append : (xs ys : Persisted) → moved_onto (xs ++ ys) ≡ moved_onto xs + moved_onto ys
  moved_onto-append [] ys = omega arith
  moved_onto-append ((e, none) ∷ xs) ys = moved_onto-append xs ys
  moved_onto-append ((e, some m) ∷ xs) ys = omega (arith, moved_onto-append xs ys)

  moved_off-append : (xs ys : Persisted) → moved_off (xs ++ ys) ≡ moved_off xs + moved_off ys
  moved_off-append [] ys = omega arith
  moved_off-append ((e, none) ∷ xs) ys = moved_off-append xs ys
  moved_off-append ((e, some m) ∷ xs) ys = omega (arith, moved_off-append xs ys)

  -- Rows are added, and the ledger carries what they move.
  abbrev Grows : RunState → RunState → Type 0
  Grows before after =
      (rows : Persisted) × (after.persisted ≡ before.persisted ++ rows)
      × Carries before.ledger after.ledger rows

  Grows-refl : (state : RunState) → Grows state state
  Grows-refl state = ([], sym (append-nil state.persisted), omega arith)

  Grows-trans : (a b c : RunState) → Grows a b → Grows b c → Grows a c
  Grows-trans a b c (xs, e, h) (ys, f, k) = (
    xs ++ ys,
    f ∙ (ap (λ l. l ++ ys) e ∙ append_assoc a.persisted xs ys),
    omega (arith, h, k, moved_onto-append xs ys, moved_off-append xs ys),
  )

  settle_entry-Grows :
      (state : RunState) (entry : ProposedAssignment) (refused : Option Conflict)
      (move : Option ProposedVisit) (verdict : EligibilityResult)
      → Grows state (settle_entry state entry refused move verdict)
  unfolding settle_entry
  settle_entry-Grows state entry refused move verdict = elim (Bool-cases verdict.is_eligible) [
    | inl t ↦ rw t ((entry, move) ∷ [], refl, record_if_moved-Carries state.ledger entry move)
    | inr f ↦ rw f (Grows-refl state)
  ]

  module _
      (evaluate : ProposedAssignment → Option ProposedVisit → Persisted → EligibilityResult) where
    apply_entry-Grows :
        (state : RunState) (entry : ProposedAssignment)
        → Grows state (apply_entry evaluate state entry)
    unfolding apply_entry
    apply_entry-Grows state entry =
        let refused = refuse_overcap_move state.ledger entry in
        let move = unless_refused refused entry.proposed_visit in
        let verdict = evaluate entry move state.persisted in
        elim (Bool-cases (not verdict.is_eligible && is_some move)) [
          | inl t ↦
              rw t
                (settle_entry-Grows state entry refused none (evaluate entry none state.persisted))
          | inr f ↦ rw f (settle_entry-Grows state entry refused move verdict)
        ]

    apply_entries-Grows :
        (state : RunState) (entries : List ProposedAssignment)
        → Grows state (apply_entries evaluate state entries)
    unfolding apply_entries
    apply_entries-Grows state [] = Grows-refl state
    apply_entries-Grows state (entry ∷ entries) =
        let next = apply_entry evaluate state entry in
        Grows-trans state next (apply_entries evaluate next entries) (apply_entry-Grows state entry)
          (apply_entries-Grows next entries)

    -- The moves that a run persists never crowd a branch-day: what the day carried before the run,
    -- with the visits that the persisted rows move onto it and without those that they move off it,
    -- is within its cap, unless the day was over its cap before, and then no more than it was.
    pub apply_entries-cap :
        (state : RunState) (entries : List ProposedAssignment)
        → (rows : Persisted) × ((apply_entries evaluate state entries).persisted
            ≡ state.persisted ++ rows)
          × (minutes_on state.ledger branch day + moved_onto rows
              ≤ max (minutes_on state.ledger branch day) (cap_on state.ledger branch day)
                + moved_off rows)
    apply_entries-cap state entries =
        let (rows, added, carried) = apply_entries-Grows state entries in
        let kept = (apply_entries-StaysWithin evaluate state entries).within branch day in
        (rows, added, omega (arith, carried, kept))
