-- ===== src/LogClassifier/Counts.antt =====
-- What the classifier counts, and how much of a line it keeps.
use Prim.Native.String.{◌++◌}
use text.Mathlib.TextLemmas.{cons-append, nil-append}
use teslamate_watchdog.Shared.{
  ℕ, zero, suc, ◌+◌, ◌≤◌, String, ◌≡◌, ◌↔◌, Bool, true, not, ◌&&◌, none, some, List, [], ◌∷◌, arith,
  eq_iff, str_eq, leb, or_default, count_if, if◌then◌else◌, inl, inr, Bool-cases,
}
use teslamate_watchdog.Shared.Text.{take_chars}
use teslamate_watchdog.Shared.Strings.{text_length, join}
use teslamate_watchdog.LogClassifier.{
  Dict, lookup, insert, set_default, Pattern, Classifier, confirmed, matches, is_blank, truncate,
  note_category, note_line, note_lines, classify, max_excerpt_chars,
}

-- no key twice, as in every dict of Python
abbrev pub Distinct : {A : Type 0} → Dict A → Type 0
Distinct [] = Unit
Distinct ((k, _) ∷ d) = (lookup k d ≡ none) × Distinct d

-- the lines, blank ones left out, that match a pattern of a category
abbrev pub matching_lines : Dict (List Pattern) → String → List String → ℕ
matching_lines patterns category =
    count_if λ line. not (is_blank line) && matches line (or_default (lookup category patterns) [])

abbrev counted : String → Dict ℕ → ℕ
counted category counts = or_default (lookup category counts) 0

abbrev one_if : Bool → ℕ
one_if b = if b then 1 else 0

lookup-insert :
    (k j : String) (v : ℕ) (d : Dict ℕ)
    → lookup j (insert k v d) ≡ (if str_eq k j then some v else lookup j d)
lookup-insert k j v [] = ground arith
lookup-insert k j v ((i, w) ∷ d) =
    ground (arith, eq_iff k j, eq_iff i k, eq_iff i j, lookup-insert k j v d)

module _ (words lines_of : String → List String) where
  note_category-counted :
      (line k j : String) (ps : List Pattern) (found : Dict ℕ × Dict String)
      → counted j (note_category words lines_of line k ps found).0
        ≡ counted j found.0 + one_if (str_eq k j && matches line ps)
  unfolding note_category
  note_category-counted line k j ps (counts, examples) =
      ground (arith, lookup-insert k j (counted k counts + 1) counts, eq_iff k j)

  note_line-counted :
      (line j : String) (patterns : Dict (List Pattern)) (found : Dict ℕ × Dict String)
      → Distinct patterns
      → counted j (note_line words lines_of line patterns found).0
        ≡ counted j found.0 + one_if (matches line (or_default (lookup j patterns) []))
  unfolding note_line
  note_line-counted line j [] found h = omega arith
  note_line-counted line j ((k, ps) ∷ rest) found h = ground (
    arith,
    h.0,
    note_category-counted line k j ps found,
    note_line-counted line j rest (note_category words lines_of line k ps found) h.1,
    eq_iff k j,
  )

  note_lines-counted :
      (patterns : Dict (List Pattern)) (j : String) (lines : List String)
      (found : Dict ℕ × Dict String)
      → Distinct patterns
      → counted j (note_lines words lines_of patterns lines found).0
        ≡ counted j found.0 + matching_lines patterns j lines
  unfolding note_lines
  note_lines-counted patterns j [] found h = omega arith
  note_lines-counted patterns j (line ∷ rest) found h = ground (
    arith,
    note_line-counted line j patterns found h,
    note_lines-counted patterns j rest found h,
    note_lines-counted patterns j rest (note_line words lines_of line patterns found) h,
  )

  -- If no category stands twice, a category is confirmed exactly if as many lines as its
  -- threshold, blank ones left out, match one of its patterns.
  pub classify-confirmed :
      (k : Classifier) (text category : String)
      → Distinct k.patterns
      → (confirmed k.thresholds (classify words lines_of k text) category ≡ true) ↔ (
          or_default (lookup category k.thresholds) 1
          ≤ matching_lines k.patterns category (lines_of text))
  unfolding confirmed classify
  classify-confirmed k text category h =
      ground (arith, note_lines-counted k.patterns category (lines_of text) ([], []) h)

  -- what is kept of a line is short
  abbrev pub AllShort : Dict String → Type 0
  AllShort [] = Unit
  AllShort ((_, s) ∷ d) = (text_length s ≤ 121) × AllShort d

  text_length-append : (s t : String) → text_length (s ++ t) ≡ text_length s + text_length t
  text_length-append String.[] t = rw (nil-append t) (omega arith)
  text_length-append (String.◌∷◌ c s) t =
      rw (cons-append c s t) (omega (arith, text_length-append s t))

  text_length-take_chars : (n : ℕ) (s : String) → text_length (take_chars n s) ≤ n
  text_length-take_chars zero s = omega arith
  text_length-take_chars (suc n) String.[] = omega arith
  text_length-take_chars (suc n) (String.◌∷◌ c s) = omega (arith, text_length-take_chars n s)

  truncate-short : (line : String) → text_length (truncate words lines_of line) ≤ 121
  unfolding truncate
  truncate-short line =
      let s = join " " (words line) in
      elim (Bool-cases (leb (text_length s) max_excerpt_chars)) [
        | inl short ↦ rw short (ground arith)
        | inr long ↦
            rw long (
              omega
                (arith, text_length-append (take_chars 120 s) "…", text_length-take_chars 120 s))
      ]

  set_default-AllShort :
      (k s : String) (d : Dict String)
      → text_length s ≤ 121
      → AllShort d
      → AllShort (set_default k s d)
  set_default-AllShort k s [] h a = (h, tt)
  set_default-AllShort k s ((j, t) ∷ d) h a = ground (arith, set_default-AllShort k s d h a.1)

  note_line-AllShort :
      (line : String) (patterns : Dict (List Pattern)) (found : Dict ℕ × Dict String)
      → AllShort found.1
      → AllShort (note_line words lines_of line patterns found).1
  unfolding note_line note_category
  note_line-AllShort line [] found a = a
  note_line-AllShort line ((k, ps) ∷ rest) found a =
      note_line-AllShort line rest (note_category words lines_of line k ps found) (
        ground (
          arith,
          set_default-AllShort k (truncate words lines_of line) found.1 (truncate-short line) a,
        ))

  note_lines-AllShort :
      (patterns : Dict (List Pattern)) (lines : List String) (found : Dict ℕ × Dict String)
      → AllShort found.1
      → AllShort (note_lines words lines_of patterns lines found).1
  unfolding note_lines
  note_lines-AllShort patterns [] found a = a
  note_lines-AllShort patterns (line ∷ rest) found a =
      note_lines-AllShort patterns rest _
        (ground (arith, a, note_line-AllShort line patterns found a))

  -- No line that is kept as an example has more than 121 characters.
  pub classify-AllShort :
      (k : Classifier) (text : String) → AllShort (classify words lines_of k text).examples
  unfolding classify
  classify-AllShort k text = note_lines-AllShort k.patterns (lines_of text) ([], []) tt
