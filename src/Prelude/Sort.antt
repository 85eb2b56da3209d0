-- ===== src/Prelude/Sort.antt =====
-- `Array.prototype.sort` with a comparator: a stable sort. `before a b` is `compare(a, b) < 0`.
use Prim.Native.Nat.{ℕ, suc, ◌≤◌}
use mathlib.Core.Path.{◌≡◌, refl, sym, ap, ◌∙◌}
use mathlib.Core.Logic.{◌↔◌, inl, inr}
use mathlib.Core.Bool.{Bool}
use mathlib.Core.List.{List, [], ◌∷◌, ◌++◌, map, Perm}
use mathlib.Core.List.Perm
use native.Mathlib.Omega.{arith}
use ultrakil_scheduling_syst.Prelude.Tests.{if◌then◌else◌, Bool-cases, ltb}
use ultrakil_scheduling_syst.Prelude.Lists.{
  length, count_of, All, In, Any, Any-In, Any-of_In, All-In, All-of_In, All-map, All-append,
}

module _ {ℓ} {A : Type ℓ} (before : A → A → Bool) where
  unfoldable pub insert_sorted : A → List A → List A
  insert_sorted x [] = x ∷ []
  insert_sorted x (y ∷ ys) =
      let rest = insert_sorted x ys in if before y x then y ∷ rest else x ∷ y ∷ ys

  unfoldable pub sort_by : List A → List A
  unfolding insert_sorted
  sort_by [] = []
  sort_by (x ∷ xs) = insert_sorted x (sort_by xs)

  insert_sorted-perm : (x : A) (ys : List A) → Perm (insert_sorted x ys) (x ∷ ys)
  unfolding insert_sorted
  insert_sorted-perm x [] = Perm.rfl
  insert_sorted-perm x (y ∷ ys) = elim (Bool-cases (before y x)) [
    | inl t ↦
        rw (t, insert_sorted)
          (Perm.trans (Perm.cons y (insert_sorted-perm x ys)) (Perm.swap x y ys))
    | inr f ↦ rw (f, insert_sorted) Perm.rfl
  ]

  All-insert_sorted {κ} :
      (P : A → Type κ) (x : A) (ys : List A) → P x → All P ys → All P (insert_sorted x ys)
  unfolding insert_sorted
  All-insert_sorted P x [] p h = (p, tt)
  All-insert_sorted P x (y ∷ ys) p h = elim (Bool-cases (before y x)) [
    | inl t ↦ rw (t, insert_sorted) (h.0, All-insert_sorted P x ys p h.1)
    | inr f ↦ rw (f, insert_sorted) (p, h)
  ]

  length-insert_sorted : (x : A) (ys : List A) → length (insert_sorted x ys) ≡ suc (length ys)
  unfolding insert_sorted
  length-insert_sorted x [] = refl
  length-insert_sorted x (y ∷ ys) = ground (arith, length-insert_sorted x ys)

  pub sort_by-perm : (xs : List A) → Perm (sort_by xs) xs
  unfolding sort_by
  sort_by-perm [] = Perm.rfl
  sort_by-perm (x ∷ xs) =
      Perm.trans (insert_sorted-perm x (sort_by xs)) (Perm.cons x (sort_by-perm xs))

  pub All-sort_by {κ} : (P : A → Type κ) (xs : List A) → All P xs → All P (sort_by xs)
  unfolding sort_by
  All-sort_by P [] h = tt
  All-sort_by P (x ∷ xs) h = All-insert_sorted P x (sort_by xs) h.0 (All-sort_by P xs h.1)

  pub length-sort_by : (xs : List A) → length (sort_by xs) ≡ length xs
  unfolding sort_by
  length-sort_by [] = refl
  length-sort_by (x ∷ xs) = length-insert_sorted x (sort_by xs) ∙ ap suc (length-sort_by xs)

module _ {ℓ} {A : Type ℓ} (before : A → A → Bool) (p : A → Bool) where
  count_of-insert_sorted :
      (x : A) (ys : List A) → count_of p (insert_sorted before x ys) ≡ count_of p (x ∷ ys)
  unfolding insert_sorted
  count_of-insert_sorted x [] = refl
  count_of-insert_sorted x (y ∷ ys) = elim (Bool-cases (before y x)) [
    | inl t ↦ rw (t, insert_sorted) (omega (arith, count_of-insert_sorted x ys))
    | inr f ↦ rw (f, insert_sorted) refl
  ]

  pub count_of-sort_by : (xs : List A) → count_of p (sort_by before xs) ≡ count_of p xs
  unfolding sort_by
  count_of-sort_by [] = refl
  count_of-sort_by (x ∷ xs) =
      omega (arith, count_of-insert_sorted x (sort_by before xs), count_of-sort_by xs)

module _ {A : Type 0} (before : A → A → Bool) where
  In-insert_sorted_self : (x : A) (ys : List A) → In x (insert_sorted before x ys)
  unfolding insert_sorted
  In-insert_sorted_self x [] = inl refl
  In-insert_sorted_self x (y ∷ ys) = elim (Bool-cases (before y x)) [
    | inl t ↦ rw (t, insert_sorted) (inr (In-insert_sorted_self x ys))
    | inr f ↦ rw (f, insert_sorted) (inl refl)
  ]

  In-insert_sorted_rest : (x : A) (ys : List A) (a : A) → In a ys → In a (insert_sorted before x ys)
  unfolding insert_sorted
  In-insert_sorted_rest x [] a m = absurd m
  In-insert_sorted_rest x (y ∷ ys) a (inl e) = elim (Bool-cases (before y x)) [
    | inl t ↦ rw (t, insert_sorted) (inl e)
    | inr f ↦ rw (f, insert_sorted) (inr (inl e))
  ]
  In-insert_sorted_rest x (y ∷ ys) a (inr m) = elim (Bool-cases (before y x)) [
    | inl t ↦ rw (t, insert_sorted) (inr (In-insert_sorted_rest x ys a m))
    | inr f ↦ rw (f, insert_sorted) (inr (inr m))
  ]

  -- Sorting keeps the elements, in both directions.
  pub In-sort_by : (xs : List A) (a : A) → In a xs → In a (sort_by before xs)
  unfolding sort_by
  In-sort_by [] a m = absurd m
  In-sort_by (x ∷ xs) a (inl e) = rw (← e) (In-insert_sorted_self x (sort_by before xs))
  In-sort_by (x ∷ xs) a (inr m) = In-insert_sorted_rest x (sort_by before xs) a (In-sort_by xs a m)

  pub In-of_In-sort_by : (xs : List A) (a : A) → In a (sort_by before xs) → In a xs
  In-of_In-sort_by xs a =
      All-In (λ x. In x xs) (sort_by before xs) {a = a}
        (All-sort_by before (λ x. In x xs) xs (All-of_In (λ x. In x xs) xs (λ a m. m)))

  pub Any-sort_by : (P : A → Type 0) (xs : List A) → Any P (sort_by before xs) ↔ Any P xs
  Any-sort_by P xs = (
    λ m.
        let (a, n, p) = Any-In P (sort_by before xs) m in
        Any-of_In P xs a (In-of_In-sort_by xs a n) p,
    λ m. let (a, n, p) = Any-In P xs m in Any-of_In P (sort_by before xs) a (In-sort_by xs a n) p,
  )

-- In ascending order.
abbrev pub IsAscending : List ℕ → Type 0
IsAscending [] = Unit
IsAscending (x ∷ xs) = All (λ y. x ≤ y) xs × IsAscending xs

insert_sorted-IsAscending :
    (x : ℕ) (ys : List ℕ) → IsAscending ys → IsAscending (insert_sorted ltb x ys)
unfolding insert_sorted
insert_sorted-IsAscending x [] h = (tt, tt)
insert_sorted-IsAscending x (y ∷ ys) h = elim (Bool-cases (ltb y x)) [
  | inl t ↦
      rw (t, insert_sorted)
        (
          All-insert_sorted ltb (λ z. y ≤ z) x ys (ground arith) h.0,
          insert_sorted-IsAscending x ys h.1,
        )
  | inr f ↦
      let below : x ≤ y = ground arith in
      rw (f, insert_sorted)
        ((below, All-map (λ z. y ≤ z) (λ z. x ≤ z) (λ z k. omega arith) ys h.0), h)
]

pub sort_by-IsAscending : (xs : List ℕ) → IsAscending (sort_by ltb xs)
unfolding sort_by
sort_by-IsAscending [] = tt
sort_by-IsAscending (x ∷ xs) = insert_sorted-IsAscending x (sort_by ltb xs) (sort_by-IsAscending xs)

-- No element occurs twice.
abbrev pub IsDistinct : {A : Type 0} → List A → Type 0
IsDistinct [] = Unit
IsDistinct (x ∷ xs) = All (λ y. ¬ (y ≡ x)) xs × IsDistinct xs

module _ {A : Type 0} where
  pub append-IsDistinct :
      (xs : List A) (x : A) → ¬ In x xs → IsDistinct xs → IsDistinct (xs ++ x ∷ [])
  append-IsDistinct [] x out h = (tt, tt)
  append-IsDistinct (y ∷ xs) x out h = (
    All-append (λ z. ¬ (z ≡ y)) xs (x ∷ []) h.0 (λ e. out (inl (sym e)), tt),
    append-IsDistinct xs x (λ m. out (inr m)) h.1,
  )

  pub insert_sorted-IsDistinct :
      (before : A → A → Bool) (x : A) (ys : List A)
      → All (λ y. ¬ (y ≡ x)) ys
      → IsDistinct ys
      → IsDistinct (insert_sorted before x ys)
  unfolding insert_sorted
  insert_sorted-IsDistinct before x [] out h = (tt, tt)
  insert_sorted-IsDistinct before x (y ∷ ys) out h = elim (Bool-cases (before y x)) [
    | inl t ↦
        rw (t, insert_sorted)
          (
            All-insert_sorted before (λ z. ¬ (z ≡ y)) x ys (λ e. out.0 (sym e)) h.0,
            insert_sorted-IsDistinct before x ys out.1 h.1,
          )
    | inr f ↦ rw (f, insert_sorted) (out, h)
  ]

  pub sort_by-IsDistinct :
      (before : A → A → Bool) (xs : List A) → IsDistinct xs → IsDistinct (sort_by before xs)
  unfolding sort_by
  sort_by-IsDistinct before [] h = tt
  sort_by-IsDistinct before (x ∷ xs) h =
      insert_sorted-IsDistinct before x (sort_by before xs)
        (All-sort_by before (λ y. ¬ (y ≡ x)) xs h.0) (sort_by-IsDistinct before xs h.1)

-- A sort by a key sorts the keys.
module _ {A B : Type 0} (key : A → B) (before : B → B → Bool) where
  map-insert_sorted :
      (x : A) (ys : List A)
      → map key (insert_sorted (λ a b. before (key a) (key b)) x ys)
        ≡ insert_sorted before (key x) (map key ys)
  unfolding insert_sorted
  map-insert_sorted x [] = refl
  map-insert_sorted x (y ∷ ys) = elim (Bool-cases (before (key y) (key x))) [
    | inl t ↦ rw (t, insert_sorted) (ap (λ zs. key y ∷ zs) (map-insert_sorted x ys))
    | inr f ↦ rw (f, insert_sorted) refl
  ]

  pub map-sort_by :
      (xs : List A)
      → map key (sort_by (λ a b. before (key a) (key b)) xs) ≡ sort_by before (map key xs)
  unfolding sort_by
  map-sort_by [] = refl
  map-sort_by (x ∷ xs) = map-insert_sorted x _ ∙ ap (insert_sorted before (key x)) (map-sort_by xs)
