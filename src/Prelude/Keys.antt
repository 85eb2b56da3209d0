-- ===== src/Prelude/Keys.antt =====
-- Equality tests: `===` on numbers, on texts, and on the composite keys that the program writes
-- as `${a}|${b}`. A composite key is a pair here: no part but the first can hold the separator.
use Prim.Native.Nat.{ℕ}
use Prim.Native.String.{String}
use mathlib.Core.Path.{◌≡◌, refl}
use mathlib.Core.Logic.{◌↔◌}
use mathlib.Core.Bool.{Bool, true, false, ◌&&◌}
use native.Mathlib.Omega.{arith}
use text.Mathlib.Text.{◌==◌ as str_eqb}
use text.Mathlib.TextEquality.{eq_iff}
use ultrakil_scheduling_syst.Prelude.Tests.{nat_eqb, nat_eqb_iff}

pub record Eq (A : Type 0) : Type 0 where
  pub beq : A → A → Bool
  pub beq_iff : (a b : A) → (beq a b ≡ true) ↔ (a ≡ b)

infix 50 ◌==◌ ◌=/=◌
abbrev pub ◌==◌ : {A : Type 0} ⦃e : Eq A⦄ → A → A → Bool
◌==◌ ⦃e⦄ = e.beq

-- `!==`
abbrev pub ◌=/=◌ : {A : Type 0} ⦃e : Eq A⦄ → A → A → Bool
◌=/=◌ ⦃e⦄ a b = elim (e.beq a b) [ true ↦ false | false ↦ true ]

instance abbrev pub nat_eq : Eq ℕ
nat_eq = record { beq = nat_eqb; beq_iff = nat_eqb_iff }

instance abbrev pub string_eq : Eq String
string_eq = record { beq = str_eqb; beq_iff = eq_iff }

module _ {A B : Type 0} ⦃e : Eq A⦄ ⦃f : Eq B⦄ where
  abbrev pub pair_eqb : A × B → A × B → Bool
  pair_eqb p q = e.beq p.0 q.0 && f.beq p.1 q.1

  pub pair_eqb_iff : (p q : A × B) → (pair_eqb p q ≡ true) ↔ (p ≡ q)
  pair_eqb_iff p q = ground (arith, e.beq_iff p.0 q.0, f.beq_iff p.1 q.1)

  instance abbrev pub pair_eq : Eq (A × B)
  pair_eq = record { beq = pair_eqb; beq_iff = pair_eqb_iff }

-- The test of a type with a decided equality.
module _ {A : Type 0} (dec : Discrete A) where
  abbrev pub dec_eqb : A → A → Bool
  dec_eqb a b = elim (dec a b) [ yes _ ↦ true | no _ ↦ false ]

  pub dec_eqb_iff : (a b : A) → (dec_eqb a b ≡ true) ↔ (a ≡ b)
  dec_eqb_iff a b = ground arith

module _ {A : Type 0} ⦃e : Eq A⦄ where
  pub beq_refl : (a : A) → (a == a) ≡ true
  beq_refl a = (e.beq_iff a a).1 refl

  pub beq_comm : (a b : A) → (a == b) ≡ (b == a)
  beq_comm a b = ground (arith, e.beq_iff a b, e.beq_iff b a)

  pub beq_false : (a b : A) → ¬ (a ≡ b) → (a == b) ≡ false
  beq_false a b h = ground (arith, e.beq_iff a b)
