-- ===== src/Prelude/Text.antt =====
-- The texts that the program writes for a manager: templates, decimal numbers, `padStart`.
use Prim.Native.Nat.{ℕ, zero, suc, ◌/◌, ◌%◌}
use Prim.Native.String
use Prim.Native.String.{String, compare}
use mathlib.Core.Bool.{Bool}
use mathlib.Core.List.{List, [], ◌∷◌}
use text.Mathlib.Text.{is_lt}
use ultrakil_scheduling_syst.Prelude.Tests.{ltb, if◌then◌else◌}

-- A template literal, by its parts.
unfoldable pub concat : List String → String
concat [] = ""
concat (s ∷ ss) = String.◌++◌ s (concat ss)

-- `parts.join(separator)`
unfoldable pub join : String → List String → String
join sep [] = ""
join sep (s ∷ []) = s
join sep (s ∷ t ∷ ss) = String.◌++◌ s (String.◌++◌ sep (join sep (t ∷ ss)))

-- `a < b` on texts
abbrev pub str_ltb : String → String → Bool
str_ltb a b = is_lt (compare a b)

unfoldable digit : ℕ → String
digit zero = "0"
digit (suc zero) = "1"
digit (suc (suc zero)) = "2"
digit (suc (suc (suc zero))) = "3"
digit (suc (suc (suc (suc zero)))) = "4"
digit (suc (suc (suc (suc (suc zero))))) = "5"
digit (suc (suc (suc (suc (suc (suc zero)))))) = "6"
digit (suc (suc (suc (suc (suc (suc (suc zero))))))) = "7"
digit (suc (suc (suc (suc (suc (suc (suc (suc zero)))))))) = "8"
digit _ = "9"

unfoldable show_from : ℕ → ℕ → String → String
unfolding digit
show_from zero n rest = rest
show_from (suc fuel) n rest =
    let rest' = String.◌++◌ (digit (n % 10)) rest in
    let more = show_from fuel (n / 10) rest' in if ltb n 10 then rest' else more

-- `String(n)`: a number has at most as many digits as itself plus one, so the fuel suffices.
unfoldable pub show : ℕ → String
unfolding show_from
show n = show_from (suc n) n ""

-- `String(n).padStart(2, '0')`
unfoldable pub pad2 : ℕ → String
unfolding show
pad2 n = if ltb n 10 then String.◌++◌ "0" (show n) else show n
