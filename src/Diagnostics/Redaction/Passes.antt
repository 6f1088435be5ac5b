-- ===== src/Diagnostics/Redaction/Passes.antt =====
-- The substitutions of `redact` of src/diagnostics.py, one after the other.
use Prim.Native.Char.{code}
use teslamate_watchdog.Shared.{
  ℕ, zero, suc, ◌≡◌, refl, ◌∙◌, String, Bool, false, Option, none, some, List, ◌++◌, arith,
  Bool-cases, inl, inr, is_some,
}
use teslamate_watchdog.Shared.Text.{take_chars}
use teslamate_watchdog.Shared.Strings.{codes}
use teslamate_watchdog.Diagnostics.Redaction.{
  Match, Token, token_length, boundary, whole, token_match, sub,
}
use teslamate_watchdog.Diagnostics.Redaction.Tokens.{Shares, both, token_length-Shares}
use teslamate_watchdog.Diagnostics.Redaction.Clean.{
  finds, Rule, replaced, put, Source, taken-Shares, replaced-finds,
}

is_some-none : {A : Type 0} (x : Option A) → is_some x ≡ false → x ≡ none
is_some-none none h = refl
is_some-none (some x) h = absurd (cc h)

whole-none : (n : Option ℕ) → whole n ≡ none → n ≡ none
whole-none none h = refl
whole-none (some n) h = absurd (cc h)

pub whole-some : (m : Option ℕ) (k n : ℕ) → whole m ≡ some (k, n) → (k ≡ 0) × (m ≡ some n)
whole-some none k n h = absurd (cc h)
whole-some (some m) k n h = (cc h, cc h)

module _ (is_word : ℕ → Bool) (t : Token) where
  module _ (match : List ℕ → Option Match) (replacement : String)
      (rule : Rule is_word t match replacement) where
    finds-put :
        (k : ℕ) (s : String) (a : Bool) (cs : List ℕ)
        → finds is_word t a (codes s) ≡ false
        → finds is_word t rule.after cs ≡ false
        → finds is_word t a (codes (take_chars k s) ++ (codes replacement ++ cs)) ≡ false
    unfolding finds
    finds-put zero s a cs h h' = rule.quiet a cs ∙ h'
    finds-put (suc k) String.[] a cs h h' = rule.quiet a cs ∙ h'
    finds-put (suc k) (String.◌∷◌ c s) a cs h h' =
        let later = finds-put k s (is_word (code c)) cs (ground (arith, h)) h' in
        elim (Bool-cases (boundary is_word a (codes (String.◌∷◌ c s)))) [
          | inr inside ↦ ground (arith, inside, later)
          | inl starts ↦
              let shown : Shares (codes s) (codes (take_chars k s) ++ (codes replacement ++ cs)) =
                rw rule.opens (taken-Shares is_word k s rule.opening _ rule.is_gap) in
              let bare = token_length-Shares t rule.plain (both (code c) shown) (
                is_some-none (token_length t (codes (String.◌∷◌ c s)))
                  (ground (arith, h, starts))) in
              rw (bare, later) refl
        ]

    kept-Source :
        Source is_word t match replacement rule (λ a s. finds is_word t a (codes s) ≡ false)
    unfolding finds put
    kept-Source = record {
      step = λ a c s h. ground (arith, h);
      stays = λ a c s h e starts.
          is_some-none (token_length t (codes (String.◌∷◌ c s))) (ground (arith, h, starts));
      takes = λ a c s k n cs h e rest. finds-put k (String.◌∷◌ c s) a cs h rest;
    }

    -- Texts in which no token is to be found have none after such a substitution.
    pub kept-finds :
        (s : String)
        → finds is_word t false (codes s) ≡ false
        → finds is_word t false (codes (sub is_word match replacement s)) ≡ false
    unfolding sub replaced
    kept-finds s h = (replaced-finds is_word t match replacement rule _ kept-Source s).0 false h

  module _ (replacement : String) (rule : Rule is_word t (token_match is_word t) replacement) where
    own-Source : Source is_word t (token_match is_word t) replacement rule (λ a s. Unit {0})
    unfolding put
    own-Source = record {
      step = λ a c s h. tt;
      stays =
          λ a c s h e starts. whole-none (token_length t (codes (String.◌∷◌ c s))) (rw starts at e);
      takes = λ a c s k n cs h e rest.
          elim (Bool-cases (boundary is_word a (codes (String.◌∷◌ c s)))) [
            | inr inside ↦ absurd (cc (rw inside at e))
            | inl starts ↦
                let found =
                  whole-some (token_length t (codes (String.◌∷◌ c s))) k n (rw starts at e) in
                rw found.0 (rule.quiet a cs ∙ rest)
          ];
    }

    -- A token is not to be found where it was replaced.
    pub own-finds :
        (s : String)
        → finds is_word t false (codes (sub is_word (token_match is_word t) replacement s)) ≡ false
    unfolding sub replaced
    own-finds s =
        (replaced-finds is_word t (token_match is_word t) replacement rule _ own-Source s).0 false
          tt
