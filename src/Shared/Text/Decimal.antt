-- ===== src/Shared/Text/Decimal.antt =====
-- A number that is printed and read again.
use Prim.Native.Nat.{ℕ, zero, suc, ◌+◌, ◌*◌, ◌/◌, ◌%◌, ◌<◌, ◌≤◌}
use Prim.Native.Char.{code}
use Prim.Native.String.{String}
use Prim.Native.String as Native
use mathlib.Core.Path.{◌≡◌, refl, sym, ap, ◌∙◌}
use mathlib.Core.Logic.{inl, inr}
use mathlib.Core.Bool.{Bool, true, false}
use mathlib.Core.Option.{Option, some}
use mathlib.Core.List.{List, [], ◌∷◌, ◌++◌, append_assoc}
use native.Mathlib.Omega.{arith}
use text.Mathlib.TextLemmas.{cons-append, nil-append}
use teslamate_watchdog.Shared.Tests.{ltb, Bool-cases}
use teslamate_watchdog.Shared.Text.{str, decimal, digit}
use teslamate_watchdog.Shared.Strings.{codes, is_space, lstrip, rstrip, strip}
use teslamate_watchdog.Shared.Lists.{All, All-append, All-imp}
use teslamate_watchdog.Shared.Int.{scan, ascii_digit}

pub codes-append : (s t : String) → codes (Native.◌++◌ s t) ≡ codes s ++ codes t
codes-append Native.[] t = rw (nil-append t)
codes-append (Native.◌∷◌ c s) t = rw (cons-append c s t) (ap (λ cs. code c ∷ cs) (codes-append s t))

digit-codes : (d : ℕ) → d < 10 → codes (digit d) ≡ (48 + d) ∷ []
unfolding digit
digit-codes zero h = refl
digit-codes (suc zero) h = refl
digit-codes (suc (suc zero)) h = refl
digit-codes (suc (suc (suc zero))) h = refl
digit-codes (suc (suc (suc (suc zero)))) h = refl
digit-codes (suc (suc (suc (suc (suc zero))))) h = refl
digit-codes (suc (suc (suc (suc (suc (suc zero)))))) h = refl
digit-codes (suc (suc (suc (suc (suc (suc (suc zero))))))) h = refl
digit-codes (suc (suc (suc (suc (suc (suc (suc (suc zero)))))))) h = refl
digit-codes (suc (suc (suc (suc (suc (suc (suc (suc (suc zero))))))))) h = refl
digit-codes (suc (suc (suc (suc (suc (suc (suc (suc (suc (suc n)))))))))) h = absurd (omega arith)

-- Anything that reads a number digit by digit, as `f` does, reads a printed number, whatever follows.
module _ {B : Type 0} (f : Bool → ℕ → List ℕ → B)
    (step : (ended : Bool) (n d : ℕ) (rest : List ℕ)
      → d < 10
      → f ended n ((48 + d) ∷ rest) ≡ f true (n * 10 + d) rest) where
  consume-decimal :
      (fuel n : ℕ) (ended : Bool) (rest : List ℕ)
      → n < fuel
      → f ended 0 (codes (decimal fuel n) ++ rest) ≡ f true n rest
  unfolding decimal
  consume-decimal zero n ended rest h = elim h [ ]
  consume-decimal (suc fuel) n ended rest h = elim (Bool-cases (ltb n 10)) [
    | inl small ↦
        rw (small, digit-codes n (ground arith))
          (step ended 0 n rest (ground arith) ∙ ap (λ m. f true m rest) (omega arith))
    | inr big ↦
        let front = codes (decimal fuel (n / 10)) in
        rw
          (
            big,
            codes-append (decimal fuel (n / 10)) (digit (n % 10)),
            digit-codes (n % 10) (omega arith),
            append_assoc front ((48 + n % 10) ∷ []) rest,
          )
          (consume-decimal fuel (n / 10) ended ((48 + n % 10) ∷ rest) (ground arith)
            ∙ step true (n / 10) (n % 10) rest (omega arith)
            ∙ ap (λ m. f true m rest) (omega arith))
  ]

  pub consume-str :
      (n : ℕ) (ended : Bool) (rest : List ℕ) → f ended 0 (codes (str n) ++ rest) ≡ f true n rest
  unfolding str
  consume-str n ended rest = consume-decimal (suc n) n ended rest (omega arith)

-- The digits that Python reads include the ASCII ones, with their values.
abbrev pub ReadsAscii : (ℕ → Option ℕ) → Type 0
ReadsAscii value = (d : ℕ) → d < 10 → value (48 + d) ≡ some d

module _ (value : ℕ → Option ℕ) (ascii : ReadsAscii value) where
  scan-digit :
      (ended : Bool) (n d : ℕ) (rest : List ℕ)
      → d < 10
      → scan value ended n ((48 + d) ∷ rest) ≡ scan value true (n * 10 + d) rest
  unfolding scan
  scan-digit ended n d rest h = rw (scan, ascii d h)

  pub scan-str :
      (n : ℕ) (ended : Bool) (rest : List ℕ)
      → scan value ended 0 (codes (str n) ++ rest) ≡ scan value true n rest
  scan-str = consume-str (scan value) scan-digit

ascii_digit-ReadsAscii : ReadsAscii ascii_digit
ascii_digit-ReadsAscii d h = ground arith

-- Different numbers are printed differently.
pub codes-str-injective : (m n : ℕ) → codes (str m) ≡ codes (str n) → m ≡ n
codes-str-injective m n e =
    let read_back : (k : ℕ) → scan ascii_digit false 0 (codes (str k) ++ []) ≡ some k =
      λ k. scan-str ascii_digit ascii_digit-ReadsAscii k false [] ∙ unfold scan in refl in
    cc (sym (read_back m) ∙ ap (λ cs. scan ascii_digit false 0 (cs ++ [])) e ∙ read_back n)

-- the code of an ASCII digit
abbrev pub IsDigit : ℕ → Type 0
IsDigit c = (48 ≤ c) × (c ≤ 57)

decimal-IsDigit : (fuel n : ℕ) → All IsDigit (codes (decimal fuel n))
unfolding decimal
decimal-IsDigit zero n = tt
decimal-IsDigit (suc fuel) n = elim (Bool-cases (ltb n 10)) [
  | inl small ↦ rw (small, digit-codes n (ground arith)) ((omega arith, ground arith), tt)
  | inr big ↦
      rw
        (
          big,
          codes-append (decimal fuel (n / 10)) (digit (n % 10)),
          digit-codes (n % 10) (omega arith),
        )
        (All-append IsDigit (codes (decimal fuel (n / 10))) ((48 + n % 10) ∷ [])
          (decimal-IsDigit fuel (n / 10)) ((omega arith, omega arith), tt))
]

-- A number is printed in digits.
pub str-IsDigit : (n : ℕ) → All IsDigit (codes (str n))
unfolding str
str-IsDigit n = decimal-IsDigit (suc n) n

abbrev pub IsDense : String → Type 0
IsDense s = All (λ c. is_space c ≡ false) (codes s)

lstrip-dense : (s : String) → IsDense s → lstrip s ≡ s
lstrip-dense Native.[] h = refl
lstrip-dense (Native.◌∷◌ c s) h = rw (h.0)

rstrip-dense : (s : String) → IsDense s → rstrip s ≡ s
rstrip-dense Native.[] h = refl
rstrip-dense (Native.◌∷◌ c s) h = rw (h.0, rstrip-dense s h.1)

-- A text without white space is stripped of nothing.
pub strip-dense : (s : String) → IsDense s → strip s ≡ s
strip-dense s h = rw (lstrip-dense s h) (rstrip-dense s h)

digit_is_dense : (c : ℕ) → IsDigit c → is_space c ≡ false
unfolding is_space
digit_is_dense c h = ground arith

pub str-IsDense : (n : ℕ) → IsDense (str n)
str-IsDense n =
    All-imp IsDigit (λ c. is_space c ≡ false) (codes (str n)) digit_is_dense (str-IsDigit n)
