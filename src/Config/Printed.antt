-- ===== src/Config/Printed.antt =====
-- Values that are written into the environment as they are printed.
use Prim.Native.String as Native
use teslamate_watchdog.Shared.{
  ℕ, ◌+◌, ◌*◌, ◌≤◌, ◌<◌, String, ◌≡◌, refl, ap, sym, ◌∙◌, Bool, true, false, Option, none, some,
  List, [], ◌∷◌, arith, All, All-append,
}
use mathlib.Core.List.{append-nil}
use teslamate_watchdog.Shared.Int.{pos, int, scan, ascii_digit, scan_signed}
use teslamate_watchdog.Shared.Text.{str}
use teslamate_watchdog.Shared.Text.Decimal.{
  ReadsAscii, IsDigit, codes-append, scan-str, consume-str, str-IsDigit, IsDense, strip-dense,
  str-IsDense,
}
use teslamate_watchdog.Shared.Strings.{codes, strip, is_space}
use teslamate_watchdog.Python.{Python}
use teslamate_watchdog.Config.Result.{ok}
use teslamate_watchdog.Config.Env.{
  Environment, env_text, env_int, match_duration, unit_seconds, parse_duration,
}

-- Python's decimal digits among the ASCII characters are the ASCII digits.
abbrev pub AgreesOnAscii : Python → Type 0
AgreesOnAscii py = (c : ℕ) → c < 128 → py.digit_value c ≡ ascii_digit c

-- the units of a duration, as they are written
pub data TimeUnit : Type 0 where
  bare second minute hour day : TimeUnit

abbrev pub suffix : TimeUnit → String
suffix bare = ""
suffix second = "s"
suffix minute = "m"
suffix hour = "h"
suffix day = "d"

abbrev pub factor : TimeUnit → ℕ
factor bare = 1
factor second = 1
factor minute = 60
factor hour = 3600
factor day = 86400

suffix-IsDense : (u : TimeUnit) → IsDense (suffix u)
unfolding is_space
suffix-IsDense bare = tt
suffix-IsDense second = (refl, tt)
suffix-IsDense minute = (refl, tt)
suffix-IsDense hour = (refl, tt)
suffix-IsDense day = (refl, tt)

module _ (py : Python) (ascii : AgreesOnAscii py) where
  reads_ascii : ReadsAscii py.digit_value
  reads_ascii d h = ascii (48 + d) (omega arith) ∙ ground arith

  match_duration-digit :
      (any : Bool) (n d : ℕ) (rest : List ℕ)
      → d < 10
      → match_duration py any n ((48 + d) ∷ rest) ≡ match_duration py true (n * 10 + d) rest
  unfolding match_duration
  match_duration-digit any n d rest h = ground (arith, reads_ascii d h)

  match_duration-suffix :
      (n : ℕ) (u : TimeUnit)
      → (unit : Option ℕ) × (match_duration py true n (codes (suffix u)) ≡ some (n, unit))
        × (unit_seconds unit ≡ some (factor u))
  unfolding match_duration unit_seconds
  match_duration-suffix n bare = (none, refl, refl)
  match_duration-suffix n second = (some b's', ground (arith, ascii b's'), refl)
  match_duration-suffix n minute = (some b'm', ground (arith, ascii b'm'), refl)
  match_duration-suffix n hour = (some b'h', ground (arith, ascii b'h'), refl)
  match_duration-suffix n day = (some b'd', ground (arith, ascii b'd'), refl)

  -- If the decimal digits below code point 128 are the ASCII ones, every number printed in
  -- decimal, with no unit or with s, m, h or d, is read back as that many seconds, minutes, hours
  -- or days.
  pub parse_duration-str :
      (field : String) (n : ℕ) (u : TimeUnit)
      → parse_duration py field (Native.◌++◌ (str n) (suffix u)) ≡ ok (n * factor u)
  unfolding parse_duration
  parse_duration-str field n u =
      let text = Native.◌++◌ (str n) (suffix u) in
      let all = codes-append (str n) (suffix u) in
      let dense : IsDense text = rw all (
        All-append (λ c. is_space c ≡ false) (codes (str n)) (codes (suffix u)) (str-IsDense n)
          (suffix-IsDense u)) in
      let (unit, matched, seconds) = match_duration-suffix n u in
      let read : match_duration py false 0 (codes (strip text)) ≡ some (n, unit) =
        rw (strip-dense text dense, all)
          (consume-str (match_duration py) match_duration-digit n false (codes (suffix u))
            ∙ matched) in
      rw (read, seconds, parse_duration)

  scan_signed-digits :
      (cs : List ℕ) (n : ℕ)
      → All IsDigit cs
      → scan py.digit_value false 0 cs ≡ some n
      → scan_signed py.digit_value cs ≡ some (pos n)
  unfolding scan scan_signed
  scan_signed-digits [] n h e = cc
  scan_signed-digits (c ∷ cs) n h e = ground (arith, h.0, e)

  int-str : (n : ℕ) → int py.digit_value (str n) ≡ some (pos n)
  unfolding int
  int-str n = rw (strip-dense (str n) (str-IsDense n)) (
      scan_signed-digits (codes (str n)) n (str-IsDigit n) (
        ap (λ cs. scan py.digit_value false 0 cs) (sym (append-nil (codes (str n))))
        ∙ scan-str py.digit_value reads_ascii n false []
        ∙ unfold scan in refl))

  -- If the minimum allows the default, a number of at least the minimum, printed in decimal, is
  -- read back by env_int, and a variable that is not set gives the default.
  pub env_int-str :
      (env : Environment) (name : String) (default minimum n : ℕ)
      → minimum ≤ n
      → minimum ≤ default
      → (env name ≡ some (str n) → env_int py env name default minimum ≡ ok n)
        × (env name ≡ none → env_int py env name default minimum ≡ ok default)
  unfolding env_int env_text
  env_int-str env name default minimum n h h' = (
    λ e. ground (arith, e, strip-dense (str n) (str-IsDense n), int-str n),
    λ e. ground (arith, e, int-str default),
  )
