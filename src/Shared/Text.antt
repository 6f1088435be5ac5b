-- ===== src/Shared/Text.antt =====
-- Texts as Python handles them: f-strings, `str` of a number, and the `str` methods used by the
-- program. A character is compared through its code point.
pub mod Decimal
use Prim.Native.Char.{code}
use Prim.Native.Nat.{ℕ, zero, suc, ◌/◌, ◌%◌}
use Prim.Native.String.{String, ◌++◌}
use text.Mathlib.TextLemmas.{cons-append, nil-append}
use mathlib.Core.Logic.{◌≢◌, inl, inr}
use mathlib.Core.Path.{◌≡◌, ◌∙◌, sym}
use mathlib.Core.Bool.{Bool, true, false}
use mathlib.Core.Option.{Option, none, some}
use mathlib.Core.List.{List, [], ◌∷◌}
use teslamate_watchdog.Shared.Tests.{Bool-cases, ltb, ◌==◌, if◌then◌else◌}

-- The parts of an f-string, joined.
abbrev pub fstring : List String → String
fstring [] = ""
fstring (s ∷ ss) = s ++ fstring ss

digit : ℕ → String
digit n =
    if n == 0
    then "0"
    else if n == 1
    then "1"
    else if n == 2
    then "2"
    else if n == 3
    then "3"
    else if n == 4
    then "4"
    else if n == 5
    then "5"
    else if n == 6
    then "6"
    else if n == 7
    then "7"
    else if n == 8
    then "8"
    else "9"

-- A number below 10 to the power of the fuel, in decimal.
decimal : ℕ → ℕ → String
unfolding digit
decimal zero n = ""
decimal (suc fuel) n =
    let front = decimal fuel (n / 10) in if ltb n 10 then digit n else front ++ digit (n % 10)

-- `str(n)`: the number of digits is at most `n + 1`.
unfoldable pub str : ℕ → String
unfolding decimal
str n = decimal (suc n) n

-- An optional value in an f-string.
abbrev pub show_opt : Option String → String
show_opt none = "None"
show_opt (some s) = s

-- `repr(value)` of a text that holds no quotes and nothing that is escaped
abbrev pub repr : String → String
repr s = fstring ("'" ∷ s ∷ "'" ∷ [])

-- `repr(value)` of an optional text that holds no quotes and nothing that is escaped
abbrev pub repr_opt : Option String → String
repr_opt none = "None"
repr_opt (some s) = repr s

-- `s[:n]`
abbrev pub take_chars : ℕ → String → String
take_chars zero s = ""
take_chars (suc n) String.[] = ""
take_chars (suc n) (String.◌∷◌ c s) = String.◌∷◌ c (take_chars n s)

-- `s.lstrip("/")`
abbrev pub lstrip_slashes : String → String
lstrip_slashes String.[] = ""
lstrip_slashes (String.◌∷◌ c s) =
    let rest = lstrip_slashes s in if code c == b'/' then rest else String.◌∷◌ c s

pub if-nonempty : (b : Bool) (s t : String) → s ≢ "" → t ≢ "" → (if b then s else t) ≢ ""
if-nonempty true s t h h' = h
if-nonempty false s t h h' = h'

digit-nonempty : (n : ℕ) → digit n ≢ ""
unfolding digit
digit-nonempty n =
    if-nonempty _ "0" _ (λ e. cc e)
      (if-nonempty _ "1" _ (λ e. cc e)
        (if-nonempty _ "2" _ (λ e. cc e)
          (if-nonempty _ "3" _ (λ e. cc e)
            (if-nonempty _ "4" _ (λ e. cc e)
              (if-nonempty _ "5" _ (λ e. cc e)
                (if-nonempty _ "6" _ (λ e. cc e)
                  (if-nonempty _ "7" _ (λ e. cc e)
                    (if-nonempty _ "8" "9" (λ e. cc e) (λ e. cc e)))))))))

append-nonempty : (s t : String) → t ≢ "" → s ++ t ≢ ""
append-nonempty String.[] t h e = h (sym (nil-append t) ∙ e)
append-nonempty (String.◌∷◌ c s) t h e =
    let f : String.◌∷◌ c (s ++ t) ≡ "" = sym (cons-append c s t) ∙ e in cc f

decimal-nonempty : (fuel n : ℕ) → decimal (suc fuel) n ≢ ""
unfolding decimal
decimal-nonempty fuel n e = elim (Bool-cases (ltb n 10)) [
  | inl small ↦ digit-nonempty n (rw small at e)
  | inr big ↦
      append-nonempty (decimal fuel (n / 10)) (digit (n % 10)) (digit-nonempty (n % 10))
        (rw big at e)
]

-- a number is never printed as nothing
pub str-nonempty : (n : ℕ) → str n ≢ ""
unfolding str
str-nonempty n e = decimal-nonempty n n e
