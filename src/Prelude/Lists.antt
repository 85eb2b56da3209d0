-- ===== src/Prelude/Lists.antt =====
-- Lists measured by native numbers, Boolean filters, and predicates on lists by recursion.
use Prim.Native.Nat.{ℕ, zero, suc, ◌+◌, ◌≤◌}
use mathlib.Core.Path.{◌≡◌, refl, ap}
use mathlib.Core.Logic.{◌⊎◌, inl, inr}
use mathlib.Core.Bool.{Bool, true, false, ◌||◌}
use mathlib.Core.List.{List, [], ◌∷◌, ◌++◌, map}
use mathlib.Core.Option.{Option, none, some}
use native.Mathlib.Omega.{arith}
use ultrakil_scheduling_syst.Prelude.Tests.{if◌then◌else◌, Bool-cases}

module _ {ℓ} {A : Type ℓ} where
  abbrev pub length : List A → ℕ
  length [] = 0
  length (x ∷ xs) = suc (length xs)

  abbrev pub get_elem? : List A → ℕ → Option A
  get_elem? [] i = none
  get_elem? (x ∷ xs) zero = some x
  get_elem? (x ∷ xs) (suc i) = get_elem? xs i

  -- `xs.filter(p)`
  abbrev pub filter : (A → Bool) → List A → List A
  filter p [] = []
  filter p (x ∷ xs) = let rest = filter p xs in if p x then x ∷ rest else rest

  -- `xs.some(p)`
  abbrev pub some_of : (A → Bool) → List A → Bool
  some_of p [] = false
  some_of p (x ∷ xs) = p x || some_of p xs

  -- `xs.find(p)`
  abbrev pub find : (A → Bool) → List A → Option A
  find p [] = none
  find p (x ∷ xs) = let rest = find p xs in if p x then some x else rest

  abbrev pub null : List A → Bool
  null [] = true
  null (x ∷ xs) = false

  abbrev pub sum_of : (A → ℕ) → List A → ℕ
  sum_of f [] = 0
  sum_of f (x ∷ xs) = f x + sum_of f xs

  abbrev pub count_of : (A → Bool) → List A → ℕ
  count_of p [] = 0
  count_of p (x ∷ xs) = (if p x then 1 else 0) + count_of p xs

  -- Every element satisfies the predicate; some element does.
  abbrev pub All {κ} : (A → Type κ) → List A → Type κ
  All P [] = Unit
  All P (x ∷ xs) = P x × All P xs

  abbrev pub Any : (A → Type 0) → List A → Type 0
  Any P [] = ⊥
  Any P (x ∷ xs) = P x ⊎ Any P xs

abbrev pub In : {A : Type 0} → A → List A → Type 0
In a = Any (λ x. x ≡ a)

module _ {ℓ} {A : Type ℓ} where
  pub length-append : (xs ys : List A) → length (xs ++ ys) ≡ length xs + length ys
  length-append [] ys = omega arith
  length-append (x ∷ xs) ys = omega (arith, length-append xs ys)

  pub length-filter-le : (p : A → Bool) (xs : List A) → length (filter p xs) ≤ length xs
  length-filter-le p [] = omega arith
  length-filter-le p (x ∷ xs) = ground (arith, length-filter-le p xs)

  pub All-append {κ} : (P : A → Type κ) (xs ys : List A) → All P xs → All P ys → All P (xs ++ ys)
  All-append P [] ys hx hy = hy
  All-append P (x ∷ xs) ys hx hy = (hx.0, All-append P xs ys hx.1 hy)

  pub All-map {κ μ} :
      (P : A → Type κ) (Q : A → Type μ)
      → ((x : A) → P x → Q x)
      → (xs : List A) → All P xs
      → All Q xs
  All-map P Q f [] h = tt
  All-map P Q f (x ∷ xs) h = (f x h.0, All-map P Q f xs h.1)

  pub Any-append_left : (P : A → Type 0) (xs ys : List A) → Any P xs → Any P (xs ++ ys)
  Any-append_left P [] ys h = absurd h
  Any-append_left P (x ∷ xs) ys (inl h) = inl h
  Any-append_left P (x ∷ xs) ys (inr h) = inr (Any-append_left P xs ys h)

  pub Any-append_right : (P : A → Type 0) (xs ys : List A) → Any P ys → Any P (xs ++ ys)
  Any-append_right P [] ys h = h
  Any-append_right P (x ∷ xs) ys h = inr (Any-append_right P xs ys h)

  pub Any-append : (P : A → Type 0) (xs ys : List A) → Any P (xs ++ ys) → Any P xs ⊎ Any P ys
  Any-append P [] ys h = inr h
  Any-append P (x ∷ xs) ys (inl h) = inl (inl h)
  Any-append P (x ∷ xs) ys (inr h) = elim (Any-append P xs ys h) [
    | inl a ↦ inl (inr a)
    | inr b ↦ inr b
  ]

module _ {A : Type 0} where
  pub All-In {κ} : (P : A → Type κ) (xs : List A) {a : A} → All P xs → In a xs → P a
  All-In P [] h m = absurd m
  All-In P (x ∷ xs) h (inl e) = rw (← e) h.0
  All-In P (x ∷ xs) h (inr m) = All-In P xs h.1 m

  pub All-of_In {κ} : (P : A → Type κ) (xs : List A) → ((a : A) → In a xs → P a) → All P xs
  All-of_In P [] h = tt
  All-of_In P (x ∷ xs) h = (h x (inl refl), All-of_In P xs (λ a m. h a (inr m)))

  In-filter_step :
      (p : A → Bool) (x : A) (xs : List A) {a : A}
      → (In a (filter p xs) → In a xs × (p a ≡ true))
      → (b : Bool) → p x ≡ b
      → In a (if b then x ∷ filter p xs else filter p xs)
      → In a (x ∷ xs) × (p a ≡ true)
  In-filter_step p x xs ih true e (inl h) = (inl h, rw (← h) e)
  In-filter_step p x xs ih true e (inr m) = (inr (ih m).0, (ih m).1)
  In-filter_step p x xs ih false e m = (inr (ih m).0, (ih m).1)

  pub In-filter : (p : A → Bool) (xs : List A) {a : A} → In a (filter p xs) → In a xs × (p a ≡ true)
  In-filter p [] m = absurd m
  In-filter p (x ∷ xs) m = In-filter_step p x xs (In-filter p xs) (p x) refl m

  pub In-filter_intro :
      (p : A → Bool) (xs : List A) {a : A} → In a xs → p a ≡ true → In a (filter p xs)
  In-filter_intro p [] m h = absurd m
  In-filter_intro p (x ∷ xs) {a} (inl e) h = let hx : p x ≡ true = rw e h in rw hx (inl e)
  In-filter_intro p (x ∷ xs) (inr m) h = elim (Bool-cases (p x)) [
    | inl t ↦ rw t (inr (In-filter_intro p xs m h))
    | inr f ↦ rw f (In-filter_intro p xs m h)
  ]

  pub All-filter {κ} :
      (P : A → Type κ) (p : A → Bool) (xs : List A) → All P xs → All P (filter p xs)
  All-filter P p [] h = tt
  All-filter P p (x ∷ xs) h = elim (Bool-cases (p x)) [
    | inl t ↦ rw t (h.0, All-filter P p xs h.1)
    | inr f ↦ rw f (All-filter P p xs h.1)
  ]

  pub some_of-In :
      (p : A → Bool) (xs : List A) → some_of p xs ≡ true → (a : A) × In a xs × (p a ≡ true)
  some_of-In p [] h = absurd (cc)
  some_of-In p (x ∷ xs) h = elim (Bool-cases (p x)) [
    | inl t ↦ (x, inl refl, t)
    | inr f ↦ let (a, m, t) = some_of-In p xs (rw f at h) in (a, inr m, t)
  ]

  pub In-some_of : (p : A → Bool) (xs : List A) {a : A} → In a xs → p a ≡ true → some_of p xs ≡ true
  In-some_of p [] m h = absurd m
  In-some_of p (x ∷ xs) (inl e) h = let hx : p x ≡ true = rw e h in rw hx refl
  In-some_of p (x ∷ xs) (inr m) h = elim (Bool-cases (p x)) [
    | inl t ↦ rw t refl
    | inr f ↦ rw f (In-some_of p xs m h)
  ]

  pub find-In : (p : A → Bool) (xs : List A) {a : A} → find p xs ≡ some a → In a xs × (p a ≡ true)
  find-In p [] h = absurd (cc)
  find-In p (x ∷ xs) {a} h = elim (Bool-cases (p x)) [
    | inl t ↦ (inl (ground (arith, t)), ground (arith, t))
    | inr f ↦ let (m, t) = find-In p xs {a = a} (rw f at h) in (inr m, t)
  ]

  pub find-none : (p : A → Bool) (xs : List A) {a : A} → find p xs ≡ none → In a xs → p a ≡ false
  find-none p [] h m = absurd m
  find-none p (x ∷ xs) h (inl e) = rw (← e) (ground arith)
  find-none p (x ∷ xs) h (inr m) = elim (Bool-cases (p x)) [
    | inl t ↦ absurd (ground (arith, t))
    | inr f ↦ find-none p xs (rw f at h) m
  ]

module _ {A : Type 0} (P : A → Type 0) where
  pub Any-of_In : (xs : List A) (a : A) → In a xs → P a → Any P xs
  Any-of_In [] a m p = m
  Any-of_In (x ∷ xs) a (inl e) p = inl (rw e p)
  Any-of_In (x ∷ xs) a (inr m) p = inr (Any-of_In xs a m p)

  pub Any-In : (xs : List A) → Any P xs → (a : A) × In a xs × P a
  Any-In [] m = absurd m
  Any-In (x ∷ xs) (inl p) = (x, inl refl, p)
  Any-In (x ∷ xs) (inr m) = let (a, n, p) = Any-In xs m in (a, inr n, p)

module _ {A B : Type 0} (f : A → B) where
  pub In-map : (xs : List A) (y : B) → In y (map f xs) → (x : A) × In x xs × (f x ≡ y)
  In-map [] y m = absurd m
  In-map (x ∷ xs) y (inl e) = (x, inl refl, e)
  In-map (x ∷ xs) y (inr m) = let (z, n, e) = In-map xs y m in (z, inr n, e)

  pub map-In : (xs : List A) (x : A) → In x xs → In (f x) (map f xs)
  map-In [] x m = absurd m
  map-In (z ∷ xs) x (inl e) = inl (ap f e)
  map-In (z ∷ xs) x (inr m) = inr (map-In xs x m)

module _ {ℓ} {A : Type ℓ} (p : A → Bool) where
  pub count_of-append : (xs ys : List A) → count_of p (xs ++ ys) ≡ count_of p xs + count_of p ys
  count_of-append [] ys = omega arith
  count_of-append (x ∷ xs) ys = omega (arith, count_of-append xs ys)

  pub count_of-all : (xs : List A) → All (λ x. p x ≡ true) xs → count_of p xs ≡ length xs
  count_of-all [] h = refl
  count_of-all (x ∷ xs) h = rw h.0 (omega (arith, count_of-all xs h.1))

  pub count_of-none : (xs : List A) → All (λ x. p x ≡ false) xs → count_of p xs ≡ 0
  count_of-none [] h = refl
  count_of-none (x ∷ xs) h = rw h.0 (omega (arith, count_of-none xs h.1))

pub length-map : {A B : Type 0} (f : A → B) (xs : List A) → length (map f xs) ≡ length xs
length-map f [] = refl
length-map f (x ∷ xs) = ap suc (length-map f xs)
