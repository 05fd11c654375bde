-- ===== src/Prelude/Text.antt =====
-- Texts built by f-strings, and Python's `x or None` on texts.
use Prim.Native.Nat.{ℕ, zero, suc, ◌/◌, ◌%◌}
use Prim.Native.String
use Prim.Native.String.{String}
use mathlib.Core.Option.{Option, none, some}
use claude_email.Prelude.Int.{ℤ, pos, negsuc}
use claude_email.Prelude.Tests.{ltb, ◌==◌, str_eq, if◌then◌else◌}

infixr 64 ◌<+>◌
abbrev pub ◌<+>◌ : String → String → String
s <+> t = String.◌++◌ s t

-- `x or None` for a text.
abbrev pub or_none : String → Option String
or_none s = if str_eq s "" then none else some s

-- `x or ""` for a nullable text.
abbrev pub or_empty : Option String → String
or_empty none = ""
or_empty (some s) = s

digit : ℕ → String
digit n =
    if n == 0
    then "0"
    else if n == 1
    then "1"
    else if n == 2
    then "2"
    else if n == 3
    then "3"
    else if n == 4
    then "4"
    else if n == 5
    then "5"
    else if n == 6
    then "6"
    else if n == 7
    then "7"
    else if n == 8
    then "8"
    else "9"

-- The decimal digits of `n`; `n + 1` rounds are enough, since each drops a digit.
show_from : ℕ → ℕ → String → String
show_from zero n tail = tail
show_from (suc fuel) n tail =
    let text = digit (n % 10) <+> tail in
    let rest = show_from fuel (n / 10) text in if ltb n 10 then text else rest

unfoldable pub show_ℕ : ℕ → String
unfolding digit show_from
show_ℕ n = show_from (suc n) n ""

abbrev pub show_ℤ : ℤ → String
show_ℤ (pos n) = show_ℕ n
show_ℤ (negsuc n) = "-" <+> show_ℕ (suc n)

-- `a or b` for two texts.
abbrev pub or_text : String → String → String
or_text a b = if str_eq a "" then b else a

-- `len` of a text
abbrev pub text_length : String → ℕ
text_length String.[] = 0
text_length (String.◌∷◌ c s) = suc (text_length s)
