-- ===== src/Prelude/Text.antt =====
-- Text: the equality test of strings, and `{}` for a number that is not negative.
use Prim.Native.Nat.{ℕ, zero, suc, ◌/◌, ◌%◌}
use Prim.Native.String
use Prim.Native.String.{String}
use Prim.Native.Char.{code}
use mathlib.Core.Option.{Option, none, some}
use mathlib.Core.List.{List, [], ◌∷◌}
use text.Mathlib.Text.{◌==◌ as text_eq}
use mathlib.Core.Bool.{Bool}
use polyglot_commerce.Prelude.Tests.{ltb, ◌==◌, if◌then◌else◌}

abbrev pub str_eq : String → String → Bool
str_eq = text_eq

infixr 65 ◌⧺◌
-- `format!` pieces put one after the other
abbrev pub ◌⧺◌ : String → String → String
s ⧺ t = String.◌++◌ s t

text_at : ℕ → List String → String
text_at i [] = ""
text_at zero (t ∷ ts) = t
text_at (suc i) (t ∷ ts) = text_at i ts

digit : ℕ → String
unfolding text_at
digit d = text_at d ("0" ∷ "1" ∷ "2" ∷ "3" ∷ "4" ∷ "5" ∷ "6" ∷ "7" ∷ "8" ∷ "9" ∷ [])

-- Decimal digits, the last one first found. A number has fewer digits than its successor is large,
-- so the fuel of `decimal` is enough.
decimal_from : ℕ → ℕ → String
decimal_from zero n = ""
decimal_from (suc fuel) n =
    let front = decimal_from fuel (n / 10) in if ltb n 10 then digit n else front ⧺ digit (n % 10)

unfoldable pub decimal : ℕ → String
unfolding decimal_from digit
decimal n = decimal_from (suc n) n

-- `str::strip_prefix`
unfoldable pub strip_prefix : String → String → Option String
strip_prefix String.[] s = some s
strip_prefix (String.◌∷◌ c p) String.[] = none
strip_prefix (String.◌∷◌ c p) (String.◌∷◌ d s) =
    let rest = strip_prefix p s in if code c == code d then rest else none
