-- ===== src/Generation/LoadGuard/Slots.antt =====
-- load-guard.ts: a write through a reference to a visit, and the removal of one.
use ultrakil_scheduling_syst.Prelude.{
  ◌+◌, ◌≤◌, ◌≡◌, refl, sym, ap, ◌∙◌, inl, inr, true, false, not, some, List, [], ◌∷◌, find-In, In,
  In-filter, In-filter_intro, All, All-In, map-In, sum_of, nat_eqb, nat_eqb_iff, arith, Bool-cases,
  ℕ,
}
use ultrakil_scheduling_syst.Prelude.Sort.{IsDistinct}
use ultrakil_scheduling_syst.Generation.Requirement.{RequiredVisit}
use ultrakil_scheduling_syst.Generation.LoadGuard.{Slot}
use ultrakil_scheduling_syst.Generation.LoadGuard.Spread.{slot_at, references, put, take_off}

pub slot_at-In :
    (index : ℕ) (slots : List Slot) (slot : Slot)
    → slot_at index slots ≡ some slot
    → In slot slots × (slot.index ≡ index)
unfolding slot_at
slot_at-In index slots slot e =
    let (m, t) = find-In (λ s. nat_eqb s.index index) slots e in
    (m, (nat_eqb_iff slot.index index).0 t)

-- What the elements of a list are after a write or a removal.
pub put-All :
    (P : Slot → Type 0) (index : ℕ) (visit : RequiredVisit) (slots : List Slot)
    → All P slots
    → ((slot : Slot) → In slot slots → slot.index ≡ index → P (record slot { visit = visit }))
    → All P (put index visit slots)
unfolding put
put-All P index visit [] h k = tt
put-All P index visit (slot ∷ slots) h k =
    let rest = put-All P index visit slots h.1 (λ s m. k s (inr m)) in
    elim (Bool-cases (nat_eqb slot.index index)) [
      | inl t ↦ rw t (k slot (inl refl) (ground arith), rest)
      | inr f ↦ rw f (h.0, rest)
    ]

pub same_slot :
    (slots : List Slot) (s t : Slot)
    → IsDistinct (references slots)
    → In s slots
    → In t slots
    → s.index ≡ t.index
    → s ≡ t
same_slot [] s t d m n e = absurd m
same_slot (first ∷ slots) s t d (inl p) (inl q) e = sym p ∙ q
same_slot (first ∷ slots) s t d (inl p) (inr n) e = absurd (
    All-In _ (references slots) d.0 (map-In (λ x. x.index) slots t n)
      (sym e ∙ sym (ap (λ x. x.index) p)))
same_slot (first ∷ slots) s t d (inr m) (inl q) e = absurd (
    All-In _ (references slots) d.0 (map-In (λ x. x.index) slots s m)
      (e ∙ sym (ap (λ x. x.index) q)))
same_slot (first ∷ slots) s t d (inr m) (inr n) e = same_slot slots s t d.1 m n e

pub In-take_off :
    (index : ℕ) (slots : List Slot) (slot : Slot)
    → In slot (take_off index slots)
    → In slot slots × ¬ (slot.index ≡ index)
unfolding take_off
In-take_off index slots slot m =
    let (n, t) = In-filter (λ s. not (nat_eqb s.index index)) slots m in
    (n, λ e. ground (arith, t, e))

pub put_other :
    (index : ℕ) (visit : RequiredVisit) (slots : List Slot) (slot : Slot)
    → In slot slots
    → ¬ (slot.index ≡ index)
    → In slot (put index visit slots)
unfolding put
put_other index visit [] slot m ne = absurd m
put_other index visit (first ∷ slots) slot (inl e) ne =
    let f : nat_eqb first.index index ≡ false = ground (arith, ne, ap (λ s. s.index) e) in
    rw f (inl e)
put_other index visit (first ∷ slots) slot (inr m) ne =
    let rest = put_other index visit slots slot m ne in
    elim (Bool-cases (nat_eqb first.index index)) [
      | inl t ↦ rw t (inr rest)
      | inr f ↦ rw f (inr rest)
    ]

pub put_here :
    (index : ℕ) (visit : RequiredVisit) (slots : List Slot) (slot : Slot)
    → In slot slots
    → slot.index ≡ index
    → In (record slot { visit = visit }) (put index visit slots)
unfolding put
put_here index visit [] slot m e = absurd m
put_here index visit (first ∷ slots) slot (inl same) e =
    let t : nat_eqb first.index index ≡ true =
      (nat_eqb_iff first.index index).1 (ap (λ s. s.index) same ∙ e) in
    rw t (inl (ap {A = Slot} (λ s. record s { visit = visit }) same))
put_here index visit (first ∷ slots) slot (inr m) e =
    let rest = put_here index visit slots slot m e in
    elim (Bool-cases (nat_eqb first.index index)) [
      | inl t ↦ rw t (inr rest)
      | inr f ↦ rw f (inr rest)
    ]

pub take_off_other :
    (index : ℕ) (slots : List Slot) (slot : Slot)
    → In slot slots
    → ¬ (slot.index ≡ index)
    → In slot (take_off index slots)
unfolding take_off
take_off_other index slots slot m ne =
    In-filter_intro (λ s. not (nat_eqb s.index index)) slots m (ground (arith, ne))

pub references-put :
    (index : ℕ) (visit : RequiredVisit) (slots : List Slot)
    → references (put index visit slots) ≡ references slots
unfolding put
references-put index visit [] = refl
references-put index visit (first ∷ slots) = elim (Bool-cases (nat_eqb first.index index)) [
  | inl t ↦ rw t (ap (λ xs. first.index ∷ xs) (references-put index visit slots))
  | inr f ↦ rw f (ap (λ xs. first.index ∷ xs) (references-put index visit slots))
]

take_off-All :
    (P : ℕ → Type 0) (index : ℕ) (slots : List Slot)
    → All P (references slots)
    → All P (references (take_off index slots))
unfolding take_off
take_off-All P index [] h = tt
take_off-All P index (first ∷ slots) h = elim (Bool-cases (nat_eqb first.index index)) [
  | inl t ↦ rw t (take_off-All P index slots h.1)
  | inr f ↦ rw f (h.0, take_off-All P index slots h.1)
]

pub take_off-IsDistinct :
    (index : ℕ) (slots : List Slot)
    → IsDistinct (references slots)
    → IsDistinct (references (take_off index slots))
unfolding take_off
take_off-IsDistinct index [] h = tt
take_off-IsDistinct index (first ∷ slots) h = elim (Bool-cases (nat_eqb first.index index)) [
  | inl t ↦ rw t (take_off-IsDistinct index slots h.1)
  | inr f ↦ rw f (take_off-All _ index slots h.0, take_off-IsDistinct index slots h.1)
]

-- What the visits of a list weigh together, under any weight.
module _ (weight : RequiredVisit → ℕ) where
  abbrev pub weight_of : List Slot → ℕ
  weight_of slots = sum_of (λ slot. weight slot.visit) slots

  pub weight_of-In :
      (slots : List Slot) (slot : Slot) → In slot slots → weight slot.visit ≤ weight_of slots
  weight_of-In [] slot m = absurd m
  weight_of-In (first ∷ slots) slot (inl e) = rw (ap (λ s. weight s.visit) (sym e)) (omega arith)
  weight_of-In (first ∷ slots) slot (inr m) = omega (arith, weight_of-In slots slot m)

  put-absent :
      (index : ℕ) (visit : RequiredVisit) (slots : List Slot)
      → All (λ other. ¬ (other ≡ index)) (references slots)
      → weight_of (put index visit slots) ≡ weight_of slots
  unfolding put
  put-absent index visit [] h = refl
  put-absent index visit (first ∷ slots) h =
      let f : nat_eqb first.index index ≡ false = ground (arith, h.0) in
      rw f (omega (arith, put-absent index visit slots h.1))

  take_off-absent :
      (index : ℕ) (slots : List Slot)
      → All (λ other. ¬ (other ≡ index)) (references slots)
      → weight_of (take_off index slots) ≡ weight_of slots
  unfolding take_off
  take_off-absent index [] h = refl
  take_off-absent index (first ∷ slots) h =
      let f : nat_eqb first.index index ≡ false = ground (arith, h.0) in
      rw f (omega (arith, take_off-absent index slots h.1))

  pub weight_of-put :
      (slot : Slot) (visit : RequiredVisit) (slots : List Slot)
      → IsDistinct (references slots)
      → In slot slots
      → weight_of (put slot.index visit slots) + weight slot.visit ≡ weight_of slots + weight visit
  unfolding put
  weight_of-put slot visit [] d m = absurd m
  weight_of-put slot visit (first ∷ slots) d (inl e) =
      let here : first.index ≡ slot.index = ap (λ s. s.index) e in
      let same : weight first.visit ≡ weight slot.visit = ap (λ s. weight s.visit) e in
      let t : nat_eqb first.index slot.index ≡ true = (nat_eqb_iff first.index slot.index).1 here in
      rw t (omega (arith, same, put-absent slot.index visit slots (rw here at d.0)))
  weight_of-put slot visit (first ∷ slots) d (inr m) =
      let ne : ¬ (slot.index ≡ first.index) =
        All-In _ (references slots) d.0 (map-In (λ s. s.index) slots slot m) in
      let f : nat_eqb first.index slot.index ≡ false = ground (arith, ne) in
      rw f (omega (arith, weight_of-put slot visit slots d.1 m))

  pub weight_of-take_off :
      (slot : Slot) (slots : List Slot)
      → IsDistinct (references slots)
      → In slot slots
      → weight_of (take_off slot.index slots) + weight slot.visit ≡ weight_of slots
  unfolding take_off
  weight_of-take_off slot [] d m = absurd m
  weight_of-take_off slot (first ∷ slots) d (inl e) =
      let here : first.index ≡ slot.index = ap (λ s. s.index) e in
      let same : weight first.visit ≡ weight slot.visit = ap (λ s. weight s.visit) e in
      let t : nat_eqb first.index slot.index ≡ true = (nat_eqb_iff first.index slot.index).1 here in
      rw t (omega (arith, same, take_off-absent slot.index slots (rw here at d.0)))
  weight_of-take_off slot (first ∷ slots) d (inr m) =
      let ne : ¬ (slot.index ≡ first.index) =
        All-In _ (references slots) d.0 (map-In (λ s. s.index) slots slot m) in
      let f : nat_eqb first.index slot.index ≡ false = ground (arith, ne) in
      rw f (omega (arith, weight_of-take_off slot slots d.1 m))
