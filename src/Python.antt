-- ===== src/Python.antt =====
-- What the program uses of Python and its library and what is not written out in the model: how a
-- time is printed, the decoding of UTF-8 with replacement, what depends on the tables of Unicode,
-- and how a JSON value is printed. Nothing is assumed of them, unless a theorem says so.
use teslamate_watchdog.Shared.{ℕ, String, Option, List}
use teslamate_watchdog.Shared.Json.{Json}

pub record Python : Type 0 where
  -- `datetime.fromtimestamp(t, tz=timezone.utc).isoformat()`, of microseconds
  pub isoformat : ℕ → String
  pub decode : List ℕ → String
  -- `str.lower`, `str.upper`, `str.split`, `str.splitlines`
  pub lower : String → String
  pub upper : String → String
  pub words : String → List String
  pub lines : String → List String
  -- the value of a character that is a decimal digit, in any script: a digit of `int` and of `\d`
  pub digit_value : ℕ → Option ℕ
  -- `json.dumps(value)`, and with `indent=2`
  pub dumps : Json → String
  pub dumps_indented : Json → String
