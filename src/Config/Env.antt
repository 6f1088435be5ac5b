-- ===== src/Config/Env.antt =====
-- The reading of single values from the environment, and `Config.from_env` up to the validation.
use teslamate_watchdog.Shared.{
  ℕ, ◌*◌, ◌+◌, String, Bool, true, false, ◌&&◌, ◌||◌, Option, none, some, List, [], ◌∷◌, map, ltb,
  ◌==◌, str_eq, if◌then◌else◌,
}
use teslamate_watchdog.Shared.Int.{ℤ, pos, negsuc, show_int, int}
use teslamate_watchdog.Shared.Text.{fstring, str, repr}
use teslamate_watchdog.Shared.Strings.{codes, strip, split_at, non_empty, is_one_of}
use teslamate_watchdog.Python.{Python}
use teslamate_watchdog.Config.Result.{Result, ok, config_error, uncaught}

-- `os.environ.get`
abbrev pub Environment : Type 0
Environment = String → Option String

abbrev pub truthy : List String
truthy = "1" ∷ "true" ∷ "yes" ∷ "on" ∷ []

abbrev pub falsy : List String
falsy = "0" ∷ "false" ∷ "no" ∷ "off" ∷ []

abbrev pub default_signin_body_markers : List String
default_signin_body_markers =
    "refresh token" ∷ "access token" ∷ "tokens[refresh_token]" ∷ "tokens[access_token]" ∷ []

-- `_env`
unfoldable pub env_text : Environment → String → String → String
env_text env name default = elim (env name) [ none ↦ default | some value ↦ strip value ]

-- `_env_csv`
unfoldable pub env_csv : Environment → String → List String → List String
env_csv env name default = elim (env name) [
  | none ↦ default
  | some raw ↦ if str_eq (strip raw) "" then default else non_empty (map strip (split_at b',' raw))
]

-- `[smhd]` in a pattern that ignores case: the long s is an `s` too
abbrev pub is_unit : ℕ → Bool
is_unit c =
    c == b's'
    || c == b'S'
    || c == 383
    || c == b'm'
    || c == b'M'
    || c == b'h'
    || c == b'H'
    || c == b'd'
    || c == b'D'

-- `_DURATION_UNITS[unit.lower()]`; none is a `KeyError`, since the long s is a small letter.
unfoldable pub unit_seconds : Option ℕ → Option ℕ
unit_seconds none = some 1
unit_seconds (some c) =
    if c == b's' || c == b'S'
    then some 1
    else if c == b'm' || c == b'M'
    then some 60
    else if c == b'h' || c == b'H'
    then some 3600
    else if c == b'd' || c == b'D'
    then some 86400
    else none

-- `_env_int` on a value; every caller gives a minimum, of 0 or more.
unfoldable pub at_least : String → ℕ → ℤ → Result ℕ
at_least name minimum (pos n) =
    if ltb n minimum
    then config_error (fstring (name ∷ " must be >= " ∷ str minimum ∷ ", got " ∷ str n ∷ []))
    else ok n
at_least name minimum (negsuc n) =
    config_error
      (fstring (name ∷ " must be >= " ∷ str minimum ∷ ", got " ∷ show_int (negsuc n) ∷ []))

module _ (py : Python) where
  -- `_env_int`
  unfoldable pub env_int : Environment → String → ℕ → ℕ → Result ℕ
  unfolding at_least
  env_int env name default minimum =
      let raw = env_text env name (str default) in
      elim (int py.digit_value raw) [
        | none ↦ config_error (fstring (name ∷ " must be an integer, got " ∷ repr raw ∷ []))
        | some value ↦ at_least name minimum value
      ]

  -- `_env_bool`
  unfoldable pub env_bool : Environment → String → Bool → Result Bool
  env_bool env name default =
      let raw = py.lower (env_text env name (if default then "true" else "false")) in
      if is_one_of raw truthy
      then ok true
      else if is_one_of raw falsy
      then ok false
      else config_error (fstring (name ∷ " must be a boolean, got " ∷ repr raw ∷ []))

  -- `(\d+)([smhd]?)$` on the rest of the text, after the digits that make up `n`: the amount and
  -- the unit. Stripped, a text has no newline at its end.
  unfoldable pub match_duration : Bool → ℕ → List ℕ → Option (ℕ × Option ℕ)
  match_duration any n [] = if any then some (n, none) else none
  match_duration any n (c ∷ cs) = elim (py.digit_value c) [
    | some d ↦ match_duration true (n * 10 + d) cs
    | none ↦ elim cs [ [] ↦ if any && is_unit c then some (n, some c) else none | _ ∷ _ ↦ none ]
  ]

  -- `parse_duration`
  unfoldable pub parse_duration : String → String → Result ℕ
  unfolding match_duration unit_seconds
  parse_duration field raw = elim (match_duration false 0 (codes (strip raw))) [
    | none ↦
        config_error
          (fstring (field ∷ " must look like '90s', '5m', '2h' or '7d', got " ∷ repr raw ∷ []))
    | some (amount, unit) ↦ elim (unit_seconds unit) [
      | none ↦ uncaught
      | some factor ↦ ok (amount * factor)
    ]
  ]
