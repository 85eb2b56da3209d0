-- ===== src/Generation/LoadGuard/Exact.antt =====
-- load-guard.ts: the running load of each day is the crew-minutes of the visits that stand on it.
use ultrakil_scheduling_syst.Prelude.{
  ℕ, ◌+◌, ◌-◌, ◌≡◌, refl, inl, inr, Option, none, some, List, In, lookup, lookup-insert,
  get_or_else, nat_eq, pair_eq, ◌==◌, if◌then◌else◌, arith, Bool-cases,
}
use ultrakil_scheduling_syst.Prelude.Sort.{IsDistinct}
use ultrakil_scheduling_syst.Domain.{BranchCode, branch_eq}
use ultrakil_scheduling_syst.Generation.Requirement.{RequiredVisit, PreviewAlternative}
use ultrakil_scheduling_syst.Generation.LoadGuard.{
  DayKey, minutes_of, day_key, amount, bump, reduce, Slot,
}
use ultrakil_scheduling_syst.Generation.LoadGuard.Slots.{
  references-put, take_off-IsDistinct, weight_of, weight_of-In, weight_of-put, weight_of-take_off,
}
use ultrakil_scheduling_syst.Generation.LoadGuard.Spread.{
  Guard, references, moved_to, move_slot, shed,
}

-- What a visit adds to a day.
abbrev pub minutes_at : DayKey → RequiredVisit → ℕ
minutes_at key visit = if day_key visit == key then minutes_of visit else 0

abbrev pub minutes_of_day : DayKey → List Slot → ℕ
minutes_of_day key slots = weight_of (minutes_at key) slots

pub amount-bump :
    (key asked : DayKey) (n : ℕ) (amounts : List (DayKey × ℕ))
    → amount asked (bump key n amounts)
      ≡ (if key == asked then amount asked amounts + n else amount asked amounts)
unfolding bump
amount-bump key asked n amounts = elim (Bool-cases (key == asked)) [
  | inl t ↦
      let same : key ≡ asked = ((pair_eq {A = BranchCode} {B = ℕ}).beq_iff key asked).0 t in
      rw (lookup-insert key asked (amount key amounts + n) amounts, t, same) refl
  | inr f ↦ rw (lookup-insert key asked (amount key amounts + n) amounts, f) refl
]

lowered : (found : Option ℕ) (n : ℕ) → get_or_else found n - n ≡ get_or_else found 0 - n
lowered none n = omega arith
lowered (some m) n = refl

pub amount-reduce :
    (key asked : DayKey) (n : ℕ) (amounts : List (DayKey × ℕ))
    → amount asked (reduce key n amounts)
      ≡ (if key == asked then amount asked amounts - n else amount asked amounts)
unfolding reduce
amount-reduce key asked n amounts = elim (Bool-cases (key == asked)) [
  | inl t ↦
      let same : key ≡ asked = ((pair_eq {A = BranchCode} {B = ℕ}).beq_iff key asked).0 t in
      rw (lookup-insert key asked _ amounts, t, same) (lowered (lookup asked amounts) n)
  | inr f ↦ rw (lookup-insert key asked _ amounts, f) refl
]

pub move_slot-IsDistinct :
    (slot : Slot) (target : PreviewAlternative) (guard : Guard)
    → IsDistinct (references guard.slots)
    → IsDistinct (references (move_slot slot target guard).slots)
unfolding move_slot
move_slot-IsDistinct slot target guard d =
    rw (references-put slot.index (moved_to target slot.visit) guard.slots) d

pub shed-IsDistinct :
    (cap : ℕ) (slot : Slot) (guard : Guard)
    → IsDistinct (references guard.slots)
    → IsDistinct (references (shed cap slot guard).slots)
unfolding shed
shed-IsDistinct cap slot guard d = take_off-IsDistinct slot.index guard.slots d

-- `rest` is what the standing work adds, which no step changes.
module _ (rest : DayKey → ℕ) where
  pub record IsExact (guard : Guard) : Type 0 where
    pub distinct : IsDistinct (references guard.slots)
    pub exact : (key : DayKey) → amount key guard.load ≡ minutes_of_day key guard.slots + rest key

  pub move_slot-IsExact :
      (slot : Slot) (target : PreviewAlternative) (guard : Guard)
      → In slot guard.slots
      → IsExact guard
      → IsExact (move_slot slot target guard)
  unfolding move_slot moved_to
  move_slot-IsExact slot target guard m h = record {
    distinct = move_slot-IsDistinct slot target guard h.distinct;
    exact = λ key.
        let visit : RequiredVisit = slot.visit in
        let from : DayKey = day_key visit in
        let to : DayKey = (visit.branch_code, target.date) in
        let n : ℕ = minutes_of visit in
        let moved =
          weight_of-put (minutes_at key) slot (moved_to target visit) guard.slots h.distinct m in
        let there = weight_of-In (minutes_at key) guard.slots slot m in
        let raised = amount-bump to key n (reduce from n guard.load) in
        let lowered_ = amount-reduce from key n guard.load in
        let before = h.exact key in
        elim (Bool-cases (from == key)) [
          | inl t ↦ elim (Bool-cases (to == key)) [
            | inl u ↦
                omega (
                  arith,
                  rw (t, u) at moved,
                  rw t at there,
                  rw u at raised,
                  rw t at lowered_,
                  before,
                )
            | inr g ↦
                omega (
                  arith,
                  rw (t, g) at moved,
                  rw t at there,
                  rw g at raised,
                  rw t at lowered_,
                  before,
                )
          ]
          | inr f ↦ elim (Bool-cases (to == key)) [
            | inl u ↦ omega (arith, rw (f, u) at moved, rw u at raised, rw f at lowered_, before)
            | inr g ↦ omega (arith, rw (f, g) at moved, rw g at raised, rw f at lowered_, before)
          ]
        ];
  }

  pub shed-IsExact :
      (cap : ℕ) (slot : Slot) (guard : Guard)
      → In slot guard.slots
      → IsExact guard
      → IsExact (shed cap slot guard)
  unfolding shed
  shed-IsExact cap slot guard m h = record {
    distinct = shed-IsDistinct cap slot guard h.distinct;
    exact = λ key.
        let taken = weight_of-take_off (minutes_at key) slot guard.slots h.distinct m in
        let lowered_ = amount-reduce (day_key slot.visit) key (minutes_of slot.visit) guard.load in
        let before = h.exact key in
        elim (Bool-cases (day_key slot.visit == key)) [
          | inl t ↦ omega (arith, rw t at taken, rw t at lowered_, before)
          | inr f ↦ omega (arith, rw f at taken, rw f at lowered_, before)
        ];
  }
