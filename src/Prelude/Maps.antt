-- ===== src/Prelude/Maps.antt =====
-- `Set` as a list searched by equality, and `Map` as an association list in insertion order:
-- `insert` on a key that is there replaces the value and keeps the place, as `Map.set` does.
use mathlib.Core.Path.{◌≡◌, refl, ap, ◌∙◌}
use mathlib.Core.Logic.{◌↔◌, ◌⊎◌, inl, inr}
use mathlib.Core.Bool.{Bool, true, false, ◌||◌}
use mathlib.Core.List.{List, [], ◌∷◌, ◌++◌, map, append-nil, append_assoc}
use mathlib.Core.Option.{Option, none, some}
use native.Mathlib.Omega.{arith}
use ultrakil_scheduling_syst.Prelude.Tests.{if◌then◌else◌, Bool-cases, get_or_else}
use ultrakil_scheduling_syst.Prelude.Lists.{In, filter}
use ultrakil_scheduling_syst.Prelude.Keys.{Eq, ◌==◌, beq_refl}

module _ {A : Type 0} ⦃e : Eq A⦄ where
  -- `xs.includes(a)`, `set.has(a)`
  unfoldable pub has : A → List A → Bool
  has a [] = false
  has a (x ∷ xs) = x == a || has a xs

  pub has-In : (a : A) (xs : List A) → has a xs ≡ true → In a xs
  unfolding has
  has-In a [] h = absurd (cc)
  has-In a (x ∷ xs) h = elim (Bool-cases (x == a)) [
    | inl t ↦ inl ((e.beq_iff x a).0 t)
    | inr f ↦ inr (has-In a xs (rw f at h))
  ]

  pub In-has : (a : A) (xs : List A) → In a xs → has a xs ≡ true
  unfolding has
  In-has a [] m = absurd m
  In-has a (x ∷ xs) (inl p) = rw ((e.beq_iff x a).1 p) refl
  In-has a (x ∷ xs) (inr m) = ground (arith, In-has a xs m)

  -- `set.add(a)`
  unfoldable pub add : A → List A → List A
  add a xs = if has a xs then xs else xs ++ a ∷ []

  -- `[...new Set(xs)]`: the first occurrence of each value, in order.
  unfoldable pub dedup_from : List A → List A → List A
  unfolding add has
  dedup_from seen [] = seen
  dedup_from seen (x ∷ xs) = dedup_from (add x seen) xs

  unfoldable pub dedup : List A → List A
  unfolding dedup_from
  dedup xs = dedup_from [] xs

  has-append : (a : A) (xs ys : List A) → has a (xs ++ ys) ≡ (has a xs || has a ys)
  unfolding has
  has-append a [] ys = refl
  has-append a (x ∷ xs) ys = ground (arith, has-append a xs ys)

  pub has-add : (a b : A) (xs : List A) → has b (add a xs) ≡ (has b xs || a == b)
  unfolding add has
  has-add a b xs =
      ground (arith, has-append b xs (a ∷ []), e.beq_iff a b, ap (λ c. has c xs) {x = a} {y = b})

  pub In-add : (a b : A) (xs : List A) → In b (add a xs) ↔ In b xs ⊎ (a ≡ b)
  In-add a b xs = (
    λ m.
        let t : has b (add a xs) ≡ true = In-has b (add a xs) m in
        elim (Bool-cases (has b xs)) [
          | inl u ↦ inl (has-In b xs u)
          | inr f ↦ inr ((e.beq_iff a b).0 (ground (arith, has-add a b xs)))
        ],
    λ m. has-In b (add a xs) (elim m [
      | inl n ↦ let u = In-has b xs n in ground (arith, has-add a b xs)
      | inr same ↦ let u = (e.beq_iff a b).1 same in ground (arith, has-add a b xs)
    ]),
  )

  In-dedup_from : (seen xs : List A) (b : A) → In b (dedup_from seen xs) ↔ In b seen ⊎ In b xs
  unfolding dedup_from
  In-dedup_from seen [] b = (inl, λ m. elim m [ inl n ↦ n | inr x ↦ absurd x ])
  In-dedup_from seen (x ∷ xs) b =
      let rest = In-dedup_from (add x seen) xs b in
      let added = In-add x b seen in
      (
        λ m. elim (rest.0 m) [
          | inl n ↦ elim (added.0 n) [ inl o ↦ inl o | inr same ↦ inr (inl same) ]
          | inr n ↦ inr (inr n)
        ],
        λ m. elim m [
          | inl n ↦ rest.1 (inl (added.1 (inl n)))
          | inr (inl same) ↦ rest.1 (inl (added.1 (inr same)))
          | inr (inr n) ↦ rest.1 (inr n)
        ],
      )

  pub In-dedup : (xs : List A) (b : A) → In b (dedup xs) ↔ In b xs
  unfolding dedup
  In-dedup xs b =
      let found = In-dedup_from [] xs b in
      (λ m. elim (found.0 m) [ inl x ↦ absurd x | inr n ↦ n ], λ n. found.1 (inr n))

  -- An element that differs goes in front of what is added.
  cons-add : (a b : A) (xs : List A) → (b == a) ≡ false → b ∷ add a xs ≡ add a (b ∷ xs)
  unfolding add has
  cons-add a b xs f = ground arith

abbrev pub keys : {K V : Type 0} → List (K × V) → List K
keys entries = map (λ entry. entry.0) entries

module _ {K V : Type 0} ⦃e : Eq K⦄ where
  -- `map.get(key)`
  unfoldable pub lookup : K → List (K × V) → Option V
  lookup key [] = none
  lookup key ((found, value) ∷ entries) = if found == key then some value else lookup key entries

  -- `map.set(key, value)`
  unfoldable pub insert : K → V → List (K × V) → List (K × V)
  insert key value [] = (key, value) ∷ []
  insert key value ((found, old) ∷ entries) =
      if found == key then (found, value) ∷ entries else (found, old) ∷ insert key value entries

  pub lookup-insert :
      (set asked : K) (value : V) (entries : List (K × V))
      → lookup asked (insert set value entries)
        ≡ (if set == asked then some value else lookup asked entries)
  unfolding lookup insert
  lookup-insert set asked value [] = refl
  lookup-insert set asked value ((found, old) ∷ entries) =
      let later = lookup-insert set asked value entries in
      ground (arith, later, e.beq_iff set asked, e.beq_iff found set, e.beq_iff found asked)

  pub lookup-insert_self : (k : K) (v : V) (m : List (K × V)) → lookup k (insert k v m) ≡ some v
  lookup-insert_self k v m = rw (lookup-insert k k v m, beq_refl k) refl

  insert_other :
      (found key : K) (old value : V) (entries : List (K × V))
      → (found == key) ≡ false
      → insert key value ((found, old) ∷ entries) ≡ (found, old) ∷ insert key value entries
  unfolding insert
  insert_other found key old value entries f = rw f refl

  pub keys-insert :
      (key : K) (value : V) (entries : List (K × V))
      → keys (insert key value entries) ≡ add key (keys entries)
  unfolding insert add has
  keys-insert key value [] = refl
  keys-insert key value ((found, old) ∷ entries) = elim (Bool-cases (found == key)) [
    | inl t ↦ rw (insert, add, has, t) refl
    | inr f ↦
        ap keys (insert_other found key old value entries f)
        ∙ ap (λ xs. found ∷ xs) (keys-insert key value entries)
        ∙ cons-add key found (keys entries) f
  ]

  pub lookup-In : (k : K) (m : List (K × V)) {v : V} → lookup k m ≡ some v → In (k, v) m
  unfolding lookup
  lookup-In k [] h = absurd (cc)
  lookup-In k ((j, w) ∷ m) {v} h = elim (Bool-cases (j == k)) [
    | inl t ↦ inl (ground (arith, e.beq_iff j k))
    | inr f ↦ inr (lookup-In k m (ground arith))
  ]

if-append :
    {A : Type 0} (b : Bool) (xs : List A) (x : A) (ys : List A)
    → (xs ++ (if b then x ∷ [] else [])) ++ ys ≡ xs ++ (if b then x ∷ ys else ys)
if-append true xs x ys = append_assoc xs (x ∷ []) ys
if-append false xs x ys = rw append-nil refl

module _ {K V : Type 0} ⦃e : Eq K⦄ where
  -- `map.set(key, [...(map.get(key) ?? []), value])`
  unfoldable pub push_under : K → V → List (K × List V) → List (K × List V)
  push_under key value groups = insert key (get_or_else (lookup key groups) [] ++ value ∷ []) groups

  unfoldable pub group_onto : (V → K) → List V → List (K × List V) → List (K × List V)
  unfolding push_under
  group_onto key_of [] groups = groups
  group_onto key_of (x ∷ xs) groups = group_onto key_of xs (push_under (key_of x) x groups)

  pub lookup-push_under :
      (set asked : K) (value : V) (groups : List (K × List V))
      → get_or_else (lookup asked (push_under set value groups)) []
        ≡ get_or_else (lookup asked groups) [] ++ (if set == asked then value ∷ [] else [])
  unfolding push_under
  lookup-push_under set asked value groups = elim (Bool-cases (set == asked)) [
    | inl t ↦
        let same : set ≡ asked = (e.beq_iff set asked).0 t in
        rw (lookup-insert set asked _ groups, t, same) refl
    | inr f ↦ rw (lookup-insert set asked _ groups, f, append-nil) refl
  ]

  -- A group holds the values of its key, in order.
  pub lookup-group_onto :
      (key_of : V → K) (xs : List V) (groups : List (K × List V)) (asked : K)
      → get_or_else (lookup asked (group_onto key_of xs groups)) []
        ≡ get_or_else (lookup asked groups) [] ++ filter (λ x. key_of x == asked) xs
  unfolding group_onto
  lookup-group_onto key_of [] groups asked = rw append-nil refl
  lookup-group_onto key_of (x ∷ xs) groups asked =
      lookup-group_onto key_of xs (push_under (key_of x) x groups) asked
      ∙ ap (λ found. found ++ filter (λ y. key_of y == asked) xs)
          (lookup-push_under (key_of x) asked x groups)
      ∙ if-append (key_of x == asked) _ x _

module _ {K V : Type 0} where
  pub In-keys : (entries : List (K × V)) (k : K) → In k (keys entries) → (v : V) × In (k, v) entries
  In-keys [] k m = absurd m
  In-keys ((j, w) ∷ entries) k (inl same) = (w, inl (rw same refl))
  In-keys ((j, w) ∷ entries) k (inr m) = let (v, n) = In-keys entries k m in (v, inr n)

  pub keys-In :
      (entries : List (K × V)) (entry : K × V) → In entry entries → In (entry.0) (keys entries)
  keys-In [] entry m = absurd m
  keys-In (first ∷ entries) entry (inl same) = inl (ap (λ e. e.0) same)
  keys-In (first ∷ entries) entry (inr m) = inr (keys-In entries entry m)
