-- ===== src/Prelude/Text.antt =====
-- Texts: comparison of whole texts, their code points, and JavaScript's notion of a truthy string.
use Prim.Native.Nat.{ℕ, zero, suc, ◌/◌, ◌%◌}
use flexi.Prelude.Tests.{if◌then◌else◌, ltb, eqb}
use Prim.Native.Char.{code}
use Prim.Native.String.{String, ◌++◌ as append}
use mathlib.Core.Path.{◌≡◌}
use mathlib.Core.Bool.{Bool, true, false, not, ◌||◌}
use mathlib.Core.Option.{Option, none, some}
use mathlib.Core.List.{List, [], ◌∷◌}
use text.Mathlib.Text.{◌==◌ as str_eq}
use text.Mathlib.TextPositions.{eq_refl}

infix 50 ◌==◌
abbrev pub ◌==◌ : String → String → Bool
s == t = str_eq s t

pub ==_refl : (s : String) → (s == s) ≡ true
==_refl s = eq_refl s

abbrev pub codes : String → List ℕ
codes String.[] = []
codes (String.◌∷◌ c s) = code c ∷ codes s

-- `texts.includes(t)`
abbrev pub includes : List String → String → Bool
includes [] t = false
includes (s ∷ ss) t = s == t || includes ss t

-- `Boolean(o)` of an optional text: the empty text is falsy.
abbrev pub truthy : Option String → Bool
truthy none = false
truthy (some s) = not (s == "")

-- `o === s`
abbrev pub same : Option String → String → Bool
same none s = false
same (some t) s = t == s

-- a decimal digit
abbrev pub digit_text : ℕ → String
digit_text d =
    if eqb d 0
    then "0"
    else if eqb d 1
    then "1"
    else if eqb d 2
    then "2"
    else if eqb d 3
    then "3"
    else if eqb d 4
    then "4"
    else if eqb d 5
    then "5"
    else if eqb d 6
    then "6"
    else if eqb d 7
    then "7"
    else if eqb d 8
    then "8"
    else "9"

decimal_digits : ℕ → ℕ → String
decimal_digits zero n = ""
decimal_digits (suc fuel) n =
    let rest = decimal_digits fuel (n / 10) in
    if ltb n 10 then digit_text n else append rest (digit_text (n % 10))

-- `${n}`; a number has fewer digits than its successor has units
pub decimal_text : ℕ → String
decimal_text n = decimal_digits (suc n) n
