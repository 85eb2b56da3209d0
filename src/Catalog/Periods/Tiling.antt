-- ===== src/Catalog/Periods/Tiling.antt =====
-- Floor division by a positive number, as the periods of a cadence use it.
use native.Mathlib.Omega.{div_fact, mod_fact}
use ultrakil_scheduling_syst.Prelude.{ℕ, suc, ◌*◌, ◌≤◌, ◌≡◌, ◌⊎◌, arith, inl, inr}
use ultrakil_scheduling_syst.Prelude.Int.{ℤ, pos, negsuc, ◌+ℤ◌, ◌≤ℤ◌, int_laws}
use ultrakil_scheduling_syst.Catalog.Periods.{floor_div, ◌*ℤ◌}

-- `k` is the number of whole periods of `n` weeks before week `z`.
abbrev pub IsPeriodOf : ℤ → ℕ → ℤ → Type 0
IsPeriodOf z n k = (k *ℤ n ≤ℤ z) × (z +ℤ pos 1 ≤ℤ k *ℤ n +ℤ pos n)

pub floor_div-IsPeriodOf : (z : ℤ) (n : ℕ) → IsPeriodOf z (suc n) (floor_div z (suc n))
unfolding floor_div ◌*ℤ◌ ◌+ℤ◌
floor_div-IsPeriodOf (pos x) n =
    let whole = div_fact x n in let rest = mod_fact x n in (omega arith, ground arith)
floor_div-IsPeriodOf (negsuc x) n =
    let whole = div_fact x n in let rest = mod_fact x n in (ground arith, ground arith)

-- A later period starts when the earlier one has ended, at the soonest.
times_step : (a b n : ℕ) → suc a ≤ b → suc a * n ≤ b * n
times_step a b n h = grind arith

periods_apart : (j k : ℤ) (n : ℕ) → j +ℤ pos 1 ≤ℤ k → j *ℤ n +ℤ pos n ≤ℤ k *ℤ n
unfolding ◌*ℤ◌ ◌+ℤ◌
periods_apart (pos a) (pos b) n h = let m = times_step a b n (ground arith) in ground arith
periods_apart (pos a) (negsuc b) n h = absurd (ground arith)
periods_apart (negsuc a) (pos b) n h = ground arith
periods_apart (negsuc a) (negsuc b) n h = let m = times_step b a n (ground arith) in ground arith

apart_or_same : (j k : ℤ) → (j +ℤ pos 1 ≤ℤ k) ⊎ ((k +ℤ pos 1 ≤ℤ j) ⊎ (j ≡ k))
unfolding ◌+ℤ◌
apart_or_same (pos a) (pos b) = ground arith
apart_or_same (pos a) (negsuc b) = ground arith
apart_or_same (negsuc a) (pos b) = ground arith
apart_or_same (negsuc a) (negsuc b) = ground arith

pub IsPeriodOf-unique : (z : ℤ) (n : ℕ) (j k : ℤ) → IsPeriodOf z n j → IsPeriodOf z n k → j ≡ k
IsPeriodOf-unique z n j k p q = elim (apart_or_same j k) [
  | inl before ↦ let apart = periods_apart j k n before in absurd (omega (int_laws, p.1, q.0))
  | inr (inl after) ↦ let apart = periods_apart k j n after in absurd (omega int_laws)
  | inr (inr same) ↦ same
]
