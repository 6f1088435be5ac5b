-- ===== src/LogClassifier/FromFile.antt =====
-- `LogClassifier.from_file` of src/log_classifier.py. The YAML document is given, with values of the
-- types that the code expects; so is `re.compile`, which gives a pattern or an error.
use teslamate_watchdog.Shared.{
  ℕ, String, ◌≡◌, refl, Bool, false, ◌||◌, Option, none, some, List, [], ◌∷◌, or_default, any, ap,
  ◌∙◌,
}
use teslamate_watchdog.LogClassifier.{Dict, Pattern, Classifier, insert, matches, new_classifier}

-- The file, read by `yaml.safe_load`: an `OSError` or a `YAMLError`, or the document.
pub data Document : Type 0 where
  unreadable : Document
  parsed : Option (Dict (Option (List String))) → Option (Dict ℕ) → Document

-- a pattern, if its expression compiled, before others
abbrev pub prepend : Option Pattern → List Pattern → List Pattern
prepend none others = others
prepend (some pattern) others = pattern ∷ others

-- Whether a line matches an expression, which an invalid one does not.
abbrev pub found : String → Option Pattern → Bool
found line none = false
found line (some pattern) = pattern line

matches-prepend :
    (line : String) (o : Option Pattern) (others : List Pattern)
    → matches line (prepend o others) ≡ found line o || matches line others
matches-prepend line none others = refl
matches-prepend line (some p) others = refl

-- `re.compile(expression, re.IGNORECASE)`; none: an `re.error`
module _ (compile : String → Option Pattern) where
  -- The expressions that compile, in order.
  abbrev pub compile_expressions : List String → List Pattern
  compile_expressions [] = []
  compile_expressions (expression ∷ rest) = prepend (compile expression) (compile_expressions rest)

  -- the loop over the categories
  abbrev pub compile_categories :
      Dict (List Pattern) → Dict (Option (List String)) → Dict (List Pattern)
  compile_categories compiled [] = compiled
  compile_categories compiled ((category, expressions) ∷ rest) =
      compile_categories
        (insert category (compile_expressions (or_default expressions [])) compiled) rest

  -- `from_file`
  unfoldable pub from_file : Document → Classifier
  from_file Document.unreadable = new_classifier [] []
  from_file (Document.parsed categories thresholds) =
      new_classifier (compile_categories [] (or_default categories [])) (or_default thresholds [])

  -- An expression that does not compile is skipped, and the others of its category still count.
  pub matches-compile_expressions :
      (line : String) (expressions : List String)
      → matches line (compile_expressions expressions)
        ≡ any (λ e. found line (compile e)) expressions
  matches-compile_expressions line [] = refl
  matches-compile_expressions line (e ∷ rest) =
      matches-prepend line (compile e) (compile_expressions rest)
      ∙ ap (λ b. found line (compile e) || b) (matches-compile_expressions line rest)
