-- ===== src/Optimizer/LoadLedger/Caps.antt =====
-- apps/api/src/scheduling/optimizer/daily-load-ledger.ts: what an admitted move does to the days.
use ultrakil_scheduling_syst.Prelude.{
  ℕ, ◌+◌, ◌-◌, ◌≤◌, max, ◌≡◌, refl, ap, inl, inr, Bool, true, false, List, if◌then◌else◌, ◌==◌,
  nat_eq, pair_eq, lookup, insert, get_or_else, lookup-insert, Bool-cases, beq_comm, beq_refl, ◌∙◌,
  arith,
}
use ultrakil_scheduling_syst.Domain.{BranchCode, DateOnly, branch_eq}
use ultrakil_scheduling_syst.Optimizer.LoadLedger.{
  DailyLoadLedger, BranchDay, minutes_on, cap_on, admits_move_onto, record_move,
}

abbrev load : List (BranchDay × ℕ) → BranchDay → ℕ
load minutes key = get_or_else (lookup key minutes) 0

abbrev pub same_day : BranchDay → BranchDay → Bool
same_day a b = a == b

load-insert :
    (key other : BranchDay) (n : ℕ) (minutes : List (BranchDay × ℕ))
    → load (insert key n minutes) other ≡ (if same_day key other then n else load minutes other)
load-insert key other n minutes = elim (Bool-cases (same_day key other)) [
  | inl t ↦ rw (lookup-insert key other n minutes, t) refl
  | inr f ↦ rw (lookup-insert key other n minutes, f) refl
]

load_moved :
    (minutes : List (BranchDay × ℕ)) (origin target key : BranchDay) (crew : ℕ)
    → same_day origin target ≡ false
    → load
        (insert target
          (load (insert origin (load minutes origin - crew) minutes) target + crew)
          (insert origin (load minutes origin - crew) minutes))
        key
      ≡ (if same_day target key
          then load minutes target + crew
          else if same_day origin key
          then load minutes origin - crew
          else load minutes key)
load_moved minutes origin target key crew apart =
    let left = insert origin (load minutes origin - crew) minutes in
    let there : load left target ≡ load minutes target =
      load-insert origin target (load minutes origin - crew) minutes ∙ rw apart refl in
    load-insert target key (load left target + crew) left
    ∙ rw (there, load-insert origin key (load minutes origin - crew) minutes) refl

same_date :
    (branch : BranchCode) (from to : DateOnly)
    → from == to ≡ false
    → same_day (branch, from) (branch, to) ≡ false
same_date branch from to f = rw (beq_refl branch, f) refl

-- The load of a day after a move, by cases on the day: the target gains the visit's crew-minutes,
-- the origin loses them, every other day keeps its load, and a move to the same day changes nothing.
pub minutes_on-record_move :
    (ledger : DailyLoadLedger) (branch : BranchCode) (from to : DateOnly) (crew : ℕ)
    (other : BranchCode) (day : DateOnly)
    → minutes_on (record_move ledger branch from to crew) other day ≡ (
        if from == to
        then minutes_on ledger other day
        else if same_day (branch, to) (other, day)
        then minutes_on ledger branch to + crew
        else if same_day (branch, from) (other, day)
        then minutes_on ledger branch from - crew
        else minutes_on ledger other day)
unfolding minutes_on record_move
minutes_on-record_move ledger branch from to crew other day = elim (Bool-cases (from == to)) [
  | inl t ↦ rw t refl
  | inr f ↦ rw f (
      load_moved ledger.minutes (branch, from) (branch, to) (other, day) crew
        (same_date branch from to f))
]

-- While the day left carries at least the visit that leaves it, a move keeps the crew-minutes of
-- the two days together.
pub record_move_total :
    (ledger : DailyLoadLedger) (branch : BranchCode) (from to : DateOnly) (crew : ℕ)
    → crew ≤ minutes_on ledger branch from
    → minutes_on (record_move ledger branch from to crew) branch from
        + minutes_on (record_move ledger branch from to crew) branch to
      ≡ minutes_on ledger branch from + minutes_on ledger branch to
record_move_total ledger branch from to crew enough = elim (Bool-cases (from == to)) [
  | inl t ↦
      rw
        (
          minutes_on-record_move ledger branch from to crew branch from,
          minutes_on-record_move ledger branch from to crew branch to,
          t,
        )
        refl
  | inr f ↦
      let back : to == from ≡ false = beq_comm to from ∙ f in
      rw
        (
          minutes_on-record_move ledger branch from to crew branch from,
          minutes_on-record_move ledger branch from to crew branch to,
          f,
          same_date branch to from back,
          beq_refl branch,
          beq_refl from,
          beq_refl to,
        )
        (omega arith)
]

-- A move leaves the caps as they are.
pub cap_on-record_move :
    (ledger : DailyLoadLedger) (branch : BranchCode) (from to : DateOnly) (crew : ℕ)
    → (record_move ledger branch from to crew).cap_minutes ≡ ledger.cap_minutes
unfolding record_move
cap_on-record_move ledger branch from to crew = elim (Bool-cases (from == to)) [
  | inl t ↦ rw t refl
  | inr f ↦ rw f refl
]

-- A move that was admitted leaves every day within its cap, or no fuller than it was.
pub record_move-le :
    (ledger : DailyLoadLedger) (branch : BranchCode) (from to : DateOnly) (crew : ℕ)
    (other : BranchCode) (day : DateOnly)
    → admits_move_onto ledger branch to crew ≡ true
    → minutes_on (record_move ledger branch from to crew) other day
      ≤ max (minutes_on ledger other day) (cap_on ledger other day)
unfolding admits_move_onto
record_move-le ledger branch from to crew other day admitted =
    rw (minutes_on-record_move ledger branch from to crew other day)
      (elim (Bool-cases (from == to)) [
        | inl t ↦ rw t (omega arith)
        | inr f ↦ rw f (elim (Bool-cases (same_day (branch, to) (other, day))) [
          | inl here ↦ rw here (full_day here)
          | inr there ↦ rw there (elim (Bool-cases (same_day (branch, from) (other, day))) [
            | inl origin ↦ rw origin (left_day origin)
            | inr away ↦ rw away (omega arith)
          ])
        ])
      ])
  where
    full_day :
        same_day (branch, to) (other, day) ≡ true
        → minutes_on ledger branch to + crew
          ≤ max (minutes_on ledger other day) (cap_on ledger other day)
    full_day here =
        let same : (branch, to) ≡ (other, day) =
          (pair_eq.beq_iff (branch, to) (other, day)).0 here in
        let caps : cap_on ledger branch to ≡ cap_on ledger other day =
          ap (λ k. cap_on ledger k.0 k.1) same in
        ground (arith, caps)

    left_day :
        same_day (branch, from) (other, day) ≡ true
        → minutes_on ledger branch from - crew
          ≤ max (minutes_on ledger other day) (cap_on ledger other day)
    left_day here =
        let same : (branch, from) ≡ (other, day) =
          (pair_eq.beq_iff (branch, from) (other, day)).0 here in
        let loads : minutes_on ledger branch from ≡ minutes_on ledger other day =
          ap (λ k. minutes_on ledger k.0 k.1) same in
        ground (arith, loads)
