-- ===== src/Shared/Int.antt =====
-- Python's integers, and `int` of a text. The value of a decimal digit is a parameter: Python takes
-- the digits of every script.
use Prim.Native.Nat.{ℕ, zero, suc, ◌+◌, ◌-◌, ◌*◌}
use Prim.Native.String.{String}
use mathlib.Core.Bool.{Bool, true, false, ◌&&◌}
use mathlib.Core.Option.{Option, none, some}
use mathlib.Core.List.{List, [], ◌∷◌}
use teslamate_watchdog.Shared.Tests.{leb, ◌==◌, if◌then◌else◌}
use teslamate_watchdog.Shared.Text.{fstring, str}
use teslamate_watchdog.Shared.Strings.{codes, strip}

pub data ℤ : Type 0 where
  pos : ℕ → ℤ
  negsuc : ℕ → ℤ

abbrev pub negate : ℕ → ℤ
negate zero = pos 0
negate (suc n) = negsuc n

-- `str(value)`
abbrev pub show_int : ℤ → String
show_int (pos n) = str n
show_int (negsuc n) = fstring ("-" ∷ str (suc n) ∷ [])

module _ (digit_value : ℕ → Option ℕ) where
  -- digits, with single underscores between them; `ended` says that a digit stands just before
  unfoldable pub scan : Bool → ℕ → List ℕ → Option ℕ
  scan ended n [] = if ended then some n else none
  scan ended n (c ∷ cs) =
      let after_underscore = scan false n cs in
      elim (digit_value c) [
        | some d ↦ scan true (n * 10 + d) cs
        | none ↦ if c == b'_' && ended then after_underscore else none
      ]

  signed : (ℕ → ℤ) → Option ℕ → Option ℤ
  signed sign none = none
  signed sign (some n) = some (sign n)

  -- `int` on a text that is stripped
  unfoldable pub scan_signed : List ℕ → Option ℤ
  unfolding scan signed
  scan_signed [] = none
  scan_signed (c ∷ cs) =
      if c == b'-'
      then signed negate (scan false 0 cs)
      else if c == b'+'
      then signed pos (scan false 0 cs)
      else signed pos (scan false 0 (c ∷ cs))

  -- `int(s)`; none is a `ValueError`. The limit on the number of digits is not modelled.
  unfoldable pub int : String → Option ℤ
  unfolding scan_signed
  int s = scan_signed (codes (strip s))

-- the value of an ASCII digit
abbrev pub ascii_digit : ℕ → Option ℕ
ascii_digit c = if leb b'0' c && leb c b'9' then some (c - b'0') else none
