-- ===== src/LogClassifier.antt =====
-- src/log_classifier.py: recent log lines, counted by category. A compiled pattern is the test that
-- its `search` makes of a line.
pub mod Counts
pub mod FromFile
use teslamate_watchdog.Shared.{
  ℕ, ◌+◌, String, Bool, not, Option, none, some, List, [], ◌∷◌, leb, str_eq, length, any,
  or_default, if◌then◌else◌,
}
use teslamate_watchdog.Shared.Text.{fstring, take_chars}
use teslamate_watchdog.Shared.Strings.{strip, text_length, join}
use teslamate_watchdog.StateMachine.{LogSignals}

abbrev pub max_excerpt_chars : ℕ
max_excerpt_chars = 120

-- a dict with text keys, in the order of insertion
abbrev pub Dict : Type 0 → Type 0
Dict A = List (String × A)

module _ {A : Type 0} where
  -- `d.get(key)`
  abbrev pub lookup : String → Dict A → Option A
  lookup k [] = none
  lookup k ((j, v) ∷ d) = if str_eq j k then some v else lookup k d

  -- `d[key] = value`
  abbrev pub insert : String → A → Dict A → Dict A
  insert k v [] = (k, v) ∷ []
  insert k v ((j, w) ∷ d) = if str_eq j k then (j, v) ∷ d else (j, w) ∷ insert k v d

  -- `d.setdefault(key, value)`
  abbrev pub set_default : String → A → Dict A → Dict A
  set_default k v [] = (k, v) ∷ []
  set_default k v ((j, w) ∷ d) = if str_eq j k then (j, w) ∷ d else (j, w) ∷ set_default k v d

  -- `{**base, **given}`
  abbrev pub override : Dict A → Dict A → Dict A
  override base [] = base
  override base ((k, v) ∷ given) = override (insert k v base) given

abbrev pub default_thresholds : Dict ℕ
default_thresholds =
    ("auth_lost", 1)
    ∷ ("refresh_failure", 3)
    ∷ ("database_failure", 3)
    ∷ ("token_decryption", 1)
    ∷ ("network_failure", 5)
    ∷ ("refresh_success", 1)
    ∷ []

abbrev pub Pattern : Type 0
Pattern = String → Bool

pub record Classification : Type 0 where
  pub counts : Dict ℕ
  pub examples : Dict String
  pub lines_scanned : ℕ

-- The attributes of `LogClassifier`.
pub record Classifier : Type 0 where
  pub patterns : Dict (List Pattern)
  pub thresholds : Dict ℕ

-- `LogClassifier(patterns, thresholds)`
unfoldable pub new_classifier : Dict (List Pattern) → Dict ℕ → Classifier
new_classifier patterns given = record {
  patterns = patterns;
  thresholds = override default_thresholds given;
}

-- `Classification.confirmed`
unfoldable pub confirmed : Dict ℕ → Classification → String → Bool
confirmed thresholds r category =
    leb (or_default (lookup category thresholds) 1) (or_default (lookup category r.counts) 0)

-- `any(pattern.search(line) for pattern in patterns)`
abbrev pub matches : String → List Pattern → Bool
matches line patterns = any (λ p. p line) patterns

abbrev has_patterns : String × List Pattern → Bool
has_patterns (_, []) = Bool.false
has_patterns (_, _ ∷ _) = Bool.true

-- `is_empty`
unfoldable pub is_empty : Classifier → Bool
is_empty k = not (any has_patterns k.patterns)

-- `not line.strip()`
unfoldable pub is_blank : String → Bool
is_blank line = str_eq (strip line) ""

-- `str.split()` and `str.splitlines()` are Python's: parameters.
module _ (words lines_of : String → List String) where
  -- `truncate`
  unfoldable pub truncate : String → String
  truncate line =
      let collapsed = join " " (words line) in
      if leb (text_length collapsed) max_excerpt_chars
      then collapsed
      else fstring (take_chars max_excerpt_chars collapsed ∷ "…" ∷ [])

  -- the body of the loop over the categories
  unfoldable pub note_category :
      String → String → List Pattern → Dict ℕ × Dict String → Dict ℕ × Dict String
  note_category line category patterns (counts, examples) =
      if matches line patterns
      then (
        insert category (or_default (lookup category counts) 0 + 1) counts,
        set_default category (truncate line) examples,
      )
      else (counts, examples)

  -- the loop over the categories, for one line
  unfoldable pub note_line :
      String → Dict (List Pattern) → Dict ℕ × Dict String → Dict ℕ × Dict String
  note_line line [] found = found
  note_line line ((category, patterns) ∷ rest) found =
      note_line line rest (note_category line category patterns found)

  -- the loop over the lines; a blank one is passed over
  unfoldable pub note_lines :
      Dict (List Pattern) → List String → Dict ℕ × Dict String → Dict ℕ × Dict String
  note_lines patterns [] found = found
  note_lines patterns (line ∷ rest) found =
      note_lines patterns rest (if is_blank line then found else note_line line patterns found)

  -- `classify`, on a text
  unfoldable pub classify : Classifier → String → Classification
  classify k text =
      let lines = lines_of text in
      let (counts, examples) = note_lines k.patterns lines ([], []) in
      record { counts = counts; examples = examples; lines_scanned = length lines }

-- `signals`
unfoldable pub signals : Classifier → Classification → LogSignals
unfolding confirmed
signals k r = record {
  auth_lost = confirmed k.thresholds r "auth_lost";
  auth_refresh_failing = confirmed k.thresholds r "refresh_failure";
  database_failure = confirmed k.thresholds r "database_failure";
  token_decryption_failure = confirmed k.thresholds r "token_decryption";
  refresh_success = confirmed k.thresholds r "refresh_success";
  matches = r.counts;
}
