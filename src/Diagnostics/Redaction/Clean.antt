-- ===== src/Diagnostics/Redaction/Clean.antt =====
-- What `redact` of src/diagnostics.py leaves in a text.
use Prim.Native.Char.{code}
use teslamate_watchdog.Shared.{
  ℕ, zero, suc, ◌-◌, ◌≡◌, refl, sym, ap, ◌∙◌, String, Bool, true, false, ◌&&◌, ◌||◌, Option, none,
  some, List, [], ◌∷◌, ◌++◌, arith, Bool-cases, Option-cases, inl, inr, is_some,
}
use mathlib.Core.Path.{subst}
use teslamate_watchdog.Shared.Text.{take_chars}
use teslamate_watchdog.Shared.Text.Decimal.{codes-append}
use teslamate_watchdog.Shared.Strings.{codes}
use teslamate_watchdog.Diagnostics.Redaction.{
  Match, is_token, Token, token_length, boundary, here, sub_from,
}
use teslamate_watchdog.Diagnostics.Redaction.Tokens.{
  IsGap, IsPlain, Shares, ended, gap, both, Ends, token_length-Shares,
}

module _ (is_word : ℕ → Bool) where
  -- `re.search` of `\b` and a token, in a text after a character or the start
  unfoldable pub finds : Token → Bool → List ℕ → Bool
  finds t before [] = false
  finds t before (c ∷ cs) =
      let rest = finds t (is_word c) cs in
      is_some (token_length t (c ∷ cs)) && boundary is_word before (c ∷ cs) || rest

  -- A substitution that puts a gap in the place of what it takes out, and ends where a token would.
  pub record Rule (t : Token) (match : List ℕ → Option Match) (replacement : String) : Type 0 where
    pub plain : IsPlain t
    pub first : (c : ℕ) (cs : List ℕ) → is_token c ≡ false → token_length t (c ∷ cs) ≡ none
    pub opening : ℕ
    pub body : List ℕ
    pub opens : codes replacement ≡ opening ∷ body
    pub is_gap : IsGap opening
    pub after : Bool
    pub quiet :
        (before : Bool) (cs : List ℕ) → finds t before (codes replacement ++ cs) ≡ finds t after cs
    pub ends :
        (c : ℕ) (cs : List ℕ) (kept n : ℕ)
        → match (c ∷ cs) ≡ some (kept, n)
        → Ends is_token (n - 1) cs

  pub taken-Shares :
      (k : ℕ) (s : String) (d : ℕ) (ds : List ℕ)
      → IsGap d
      → Shares (codes s) (codes (take_chars k s) ++ d ∷ ds)
  taken-Shares zero s d ds g = gap (codes s) d ds g
  taken-Shares (suc k) String.[] d ds g = gap [] d ds g
  taken-Shares (suc k) (String.◌∷◌ c s) d ds g = both (code c) (taken-Shares k s d ds g)

  finds-none :
      (t : Token) (before : Bool) (c : ℕ) (cs : List ℕ)
      → token_length t (c ∷ cs) ≡ none
      → finds t before (c ∷ cs) ≡ finds t (is_word c) cs
  unfolding finds
  finds-none t before c cs h = rw h refl

  module _ (t : Token) (match : List ℕ → Option Match) (replacement : String)
      (rule : Rule t match replacement) where
    unfoldable pub replaced : Bool → ℕ → String → String
    replaced before skip s = sub_from is_word match replacement before skip s

    unfoldable pub put : ℕ → String → List ℕ → List ℕ
    put k s cs = codes (take_chars k s) ++ (codes replacement ++ cs)

    replaced-stays :
        (a : Bool) (s : String) (c : _)
        → here is_word match a (codes (String.◌∷◌ c s)) ≡ none
        → codes (replaced a 0 (String.◌∷◌ c s)) ≡ code c ∷ codes (replaced (is_word (code c)) 0 s)
    unfolding replaced sub_from
    replaced-stays a s c h = rw (replaced, sub_from, h) refl

    replaced-takes :
        (a : Bool) (s : String) (c : _) (k n : ℕ)
        → here is_word match a (codes (String.◌∷◌ c s)) ≡ some (k, n)
        → codes (replaced a 0 (String.◌∷◌ c s))
          ≡ put k (String.◌∷◌ c s) (codes (replaced (is_word (code c)) (n - 1) s))
    unfolding replaced sub_from put
    replaced-takes a s c k n h =
        rw (replaced, sub_from, h)
          (codes-append (take_chars k (String.◌∷◌ c s)) _
            ∙ ap (λ x. codes (take_chars k (String.◌∷◌ c s)) ++ x) (codes-append replacement _))

    replaced-Shares : (a : Bool) (s : String) → Shares (codes s) (codes (replaced a 0 s))
    unfolding replaced sub_from put
    replaced-Shares a String.[] = ended
    replaced-Shares a (String.◌∷◌ c s) =
        let t = String.◌∷◌ c s in
        elim (Option-cases (here is_word match a (codes t))) [
          | inl e ↦
              subst (Shares (codes t)) (sym (replaced-stays a s c e))
                (both (code c) (replaced-Shares (is_word (code c)) s))
          | inr ((k, n), e) ↦
              subst (Shares (codes t)) (sym (replaced-takes a s c k n e))
                (rw rule.opens (taken-Shares k t rule.opening _ rule.is_gap))
        ]

    -- what begins with no token character does so after the substitution
    replaced-Ends :
        (a : Bool) (s : String)
        → Ends is_token 0 (codes s)
        → Ends is_token 0 (codes (replaced a 0 s))
    unfolding replaced sub_from put
    replaced-Ends a String.[] h = tt
    replaced-Ends a (String.◌∷◌ c s) h =
        elim (Option-cases (here is_word match a (codes (String.◌∷◌ c s)))) [
          | inl e ↦ subst (Ends is_token 0) (sym (replaced-stays a s c e)) h
          | inr ((zero, n), e) ↦
              subst (Ends is_token 0) (sym (replaced-takes a s c 0 n e))
                (rw rule.opens rule.is_gap.0)
          | inr ((suc k, n), e) ↦ subst (Ends is_token 0) (sym (replaced-takes a s c (suc k) n e)) h
        ]

    -- before what begins with no token character, it does not matter what is in front
    finds-Ends : (a b : Bool) (cs : List ℕ) → Ends is_token 0 cs → finds t a cs ≡ finds t b cs
    unfolding finds
    finds-Ends a b [] h = refl
    finds-Ends a b (c ∷ cs) h =
        finds-none t a c cs (rule.first c cs h) ∙ sym (finds-none t b c cs (rule.first c cs h))

    -- What is known of a text after a character, so that no token is left in it.
    pub record Source (P : Bool → String → Type 0) : Type 0 where
      pub step : (a : Bool) (c : _) (s : String) → P a (String.◌∷◌ c s) → P (is_word (code c)) s
      pub stays :
          (a : Bool) (c : _) (s : String)
          → P a (String.◌∷◌ c s)
          → here is_word match a (codes (String.◌∷◌ c s)) ≡ none
          → boundary is_word a (codes (String.◌∷◌ c s)) ≡ true
          → token_length t (codes (String.◌∷◌ c s)) ≡ none
      pub takes :
          (a : Bool) (c : _) (s : String) (k n : ℕ) (cs : List ℕ)
          → P a (String.◌∷◌ c s)
          → here is_word match a (codes (String.◌∷◌ c s)) ≡ some (k, n)
          → finds t rule.after cs ≡ false
          → finds t a (put k (String.◌∷◌ c s) cs) ≡ false

    module _ (P : Bool → String → Type 0) (source : Source P) where
      finds-stays :
          (a : Bool) (c : _) (s : String)
          → P a (String.◌∷◌ c s)
          → here is_word match a (codes (String.◌∷◌ c s)) ≡ none
          → finds t (is_word (code c)) (codes (replaced (is_word (code c)) 0 s)) ≡ false
          → finds t a (code c ∷ codes (replaced (is_word (code c)) 0 s)) ≡ false
      unfolding finds
      finds-stays a c s p e rest = elim (Bool-cases (boundary is_word a (codes (String.◌∷◌ c s)))) [
        | inr inside ↦ ground (arith, inside, rest)
        | inl starts ↦
            let bare =
              token_length-Shares t rule.plain
                (both (code c) (replaced-Shares (is_word (code c)) s))
                (source.stays a c s p e starts) in
            rw (bare, rest) refl
      ]

      here-Ends :
          (a : Bool) (c : _) (s : String) (k n : ℕ)
          → here is_word match a (codes (String.◌∷◌ c s)) ≡ some (k, n)
          → Ends is_token (n - 1) (codes s)
      here-Ends a c s k n e = elim (Bool-cases (boundary is_word a (codes (String.◌∷◌ c s)))) [
        | inl starts ↦ rule.ends (code c) (codes s) k n (rw starts at e)
        | inr inside ↦ absurd (cc (rw inside at e))
      ]

      -- Nothing is found after what is left of a match.
      abbrev IsClearAfter : String → Bool → Bool → ℕ → Type 0
      IsClearAfter s a b n =
          P a s → Ends is_token n (codes s) → finds t b (codes (replaced a n s)) ≡ false

      -- Nothing is found after the substitution: from here on, and after a match.
      pub replaced-finds :
          (s : String)
          → ((a : Bool) → P a s → finds t a (codes (replaced a 0 s)) ≡ false)
            × ((a b : Bool) (n : ℕ) → IsClearAfter s a b n)
      unfolding replaced sub_from finds
      replaced-finds String.[] = (λ a p. refl, λ a b n p h. refl)
      replaced-finds (String.◌∷◌ c s) =
          let rest = replaced-finds s in
          let now : (a : Bool)
              → P a (String.◌∷◌ c s)
              → finds t a (codes (replaced a 0 (String.◌∷◌ c s))) ≡ false =
            λ a p. elim (Option-cases (here is_word match a (codes (String.◌∷◌ c s)))) [
              | inl e ↦
                  ap (finds t a) (replaced-stays a s c e)
                  ∙ finds-stays a c s p e (rest.0 (is_word (code c)) (source.step a c s p))
              | inr ((k, n), e) ↦
                  ap (finds t a) (replaced-takes a s c k n e)
                  ∙ source.takes a c s k n _ p e (
                      rest.1 (is_word (code c)) rule.after (n - 1) (source.step a c s p)
                        (here-Ends a c s k n e))
            ] in
          (
            now,
            λ a b n. elim n as (λ n. IsClearAfter (String.◌∷◌ c s) a b n) [
              | zero ↦ λ p h.
                  finds-Ends b a (codes (replaced a 0 (String.◌∷◌ c s)))
                    (replaced-Ends a (String.◌∷◌ c s) h)
                  ∙ now a p
              | suc m ↦ λ p h. rest.1 (is_word (code c)) b m (source.step a c s p) h
            ],
          )
