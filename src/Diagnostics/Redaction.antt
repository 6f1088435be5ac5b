-- ===== src/Diagnostics/Redaction.antt =====
-- `_REDACTIONS` of src/diagnostics.py: its three patterns, and `pattern.sub` for each. A class of
-- characters is never followed in a pattern by one of its own members, so that no match is found by
-- giving back a character.

pub mod Tokens
pub mod Clean
pub mod Passes
pub mod Labelled
pub mod Hidden
use teslamate_watchdog.Shared.{
  ℕ, zero, suc, ◌+◌, ◌-◌, String, Bool, true, false, not, ◌&&◌, ◌||◌, Option, none, some, List, [],
  ◌∷◌, ◌==◌, leb, drop, map, if◌then◌else◌,
}
use Prim.Native.Char.{code}
use Prim.Native.String.{◌++◌}
use teslamate_watchdog.Shared.Text.{take_chars}
use teslamate_watchdog.Shared.Strings.{codes, begins, is_space}
use teslamate_watchdog.HttpCheck.{fold}

-- how much of a match `\1` keeps, and how long the match is
abbrev pub Match : Type 0
Match = ℕ × ℕ

-- `[A-Za-z0-9_-]`
unfoldable pub is_token : ℕ → Bool
is_token c =
    leb b'A' c && leb c b'Z'
    || leb b'a' c && leb c b'z'
    || leb b'0' c && leb c b'9'
    || c == b'_'
    || c == b'-'

abbrev pub longer : Option ℕ → Option ℕ
longer none = none
longer (some n) = some (suc n)

-- Runs of token characters, at the front, with a dot between two: the characters that the first
-- run still needs, and those that the others need.
unfoldable pub runs : ℕ → List ℕ → List ℕ → Option ℕ
runs need [] [] = if need == 0 then some 0 else none
runs need (m ∷ ms) [] = none
runs need [] (c ∷ cs) =
    let more = runs (need - 1) [] cs in
    if is_token c then longer more else if need == 0 then some 0 else none
runs need (m ∷ ms) (c ∷ cs) =
    let more = runs (need - 1) (m ∷ ms) cs in
    let next = runs m ms cs in
    if is_token c then longer more else if need == 0 && c == b'.' then longer next else none

-- a secret that a prefix tells
pub record Token : Type 0 where
  pub start : List ℕ
  pub need : ℕ
  pub needs : List ℕ

-- `eyJ[A-Za-z0-9_-]{10,}\.[A-Za-z0-9_-]+\.[A-Za-z0-9_-]+`
abbrev pub jwt : Token
jwt = record { start = codes "eyJ"; need = 10; needs = 1 ∷ 1 ∷ [] }

-- `qts-[A-Za-z0-9_-]{10,}`
abbrev pub refresh_token : Token
refresh_token = record { start = codes "qts-"; need = 10; needs = [] }

unfoldable pub from_start : ℕ → List ℕ → List ℕ → List ℕ → Option ℕ
unfolding runs
from_start need needs [] cs = runs need needs cs
from_start need needs (l ∷ ls) [] = none
from_start need needs (l ∷ ls) (c ∷ cs) =
    let rest = from_start need needs ls cs in if l == c then longer rest else none

-- a token at the front
abbrev pub token_length : Token → List ℕ → Option ℕ
token_length t cs = from_start t.need t.needs t.start cs

-- a token, of which nothing is kept
abbrev pub whole : Option ℕ → Option Match
whole none = none
whole (some n) = some (0, n)

-- the length of the longest run at the front
unfoldable pub run_length : (ℕ → Bool) → List ℕ → ℕ
run_length test [] = 0
run_length test (c ∷ cs) = let n = run_length test cs in if test c then suc n else 0

-- a character as `(?i)` compares it with a letter of the pattern
abbrev pub fold_letter : ℕ → ℕ
fold_letter c = if c == 8490 then b'k' else fold c

-- `[A-Za-z0-9._-]`, under `(?i)`
unfoldable pub is_value : ℕ → Bool
is_value c = is_token c || c == b'.' || leb b'a' (fold_letter c) && leb (fold_letter c) b'z'

-- the first of the texts that stands at the front, by its length
unfoldable pub one_of : List String → List ℕ → Option ℕ
one_of [] cs = none
one_of (s ∷ ss) cs =
    let rest = one_of ss cs in
    if begins (codes s) cs then some (run_length (λ _. true) (codes s)) else rest

-- `access[_ -]?token|refresh[_ -]?token|bearer`
abbrev pub labels : List String
labels =
    "accesstoken" ∷ "access_token" ∷ "access token" ∷ "access-token" ∷ "refreshtoken"
    ∷ "refresh_token" ∷ "refresh token" ∷ "refresh-token" ∷ "bearer" ∷ []

-- `[:=]?`
abbrev pub sign_length : List ℕ → ℕ
sign_length [] = 0
sign_length (c ∷ cs) = if c == b':' || c == b'=' then 1 else 0

-- `\s*[:=]?\s*[A-Za-z0-9._-]{12,}`, at the front
unfoldable pub value_length : List ℕ → Option ℕ
unfolding run_length
value_length cs =
    let spaces = run_length is_space cs in
    let sign = spaces + sign_length (drop spaces cs) in
    let gap = sign + run_length is_space (drop sign cs) in
    let n = run_length is_value (drop gap cs) in if leb 12 n then some (gap + n) else none

-- `is_word` is the test of `\w`, by the tables of Unicode.
module _ (is_word : ℕ → Bool) where
  -- `\b`, between a character of which this was asked, or the start, and what follows
  abbrev pub boundary : Bool → List ℕ → Bool
  boundary before [] = before
  boundary before (c ∷ cs) = if before then not (is_word c) else is_word c

  -- the label, `\b` and the value
  unfoldable pub labelled : List ℕ → Option Match
  unfolding one_of value_length
  labelled cs = elim (one_of labels (map fold_letter cs)) [
    | none ↦ none
    | some k ↦
        if boundary true (drop k cs)
        then elim (value_length (drop k cs)) [ none ↦ none | some n ↦ some (k, k + n) ]
        else none
  ]

  -- `\b` and the rest of a pattern
  abbrev pub here : (List ℕ → Option Match) → Bool → List ℕ → Option Match
  here match before cs = if boundary before cs then match cs else none

  -- `re.sub` of a pattern that begins with `\b`, in a text after a character, or the start, and
  -- with what is left of a match.
  unfoldable pub sub_from : (List ℕ → Option Match) → String → Bool → ℕ → String → String
  sub_from match replacement before skip String.[] = ""
  sub_from match replacement before (suc skip) (String.◌∷◌ c s) =
      sub_from match replacement (is_word (code c)) skip s
  sub_from match replacement before zero (String.◌∷◌ c s) =
      let t = String.◌∷◌ c s in
      elim (here match before (codes t)) [
        | none ↦ String.◌∷◌ c (sub_from match replacement (is_word (code c)) 0 s)
        | some (kept, n) ↦
            take_chars kept t
            ++ (replacement ++ sub_from match replacement (is_word (code c)) (n - 1) s)
      ]

  unfoldable pub sub : (List ℕ → Option Match) → String → String → String
  unfolding sub_from
  sub match replacement s = sub_from match replacement false 0 s

  abbrev pub token_match : Token → List ℕ → Option Match
  token_match t cs = whole (token_length t cs)

  -- `_REDACTIONS`
  unfoldable pub redactions : List (String → String)
  unfolding sub labelled
  redactions =
      sub (token_match jwt) "<jwt-redacted>"
      ∷ sub (token_match refresh_token) "<refresh-token-redacted>"
      ∷ sub labelled " <redacted>"
      ∷ []
