-- ===== src/Diagnostics/Redaction/Hidden.antt =====
-- The secrets that `redact` of src/diagnostics.py takes out of a text.
use teslamate_watchdog.Shared.{
  ℕ, ◌-◌, ◌≡◌, refl, String, Bool, false, Option, none, some, List, [], ◌∷◌, ◌++◌,
}
use teslamate_watchdog.Shared.Strings.{codes}
use teslamate_watchdog.Diagnostics.{redact}
use teslamate_watchdog.Diagnostics.Redaction.{
  Match, is_token, Token, jwt, refresh_token, token_length, token_match, sub, labelled, redactions,
  from_start,
}
use teslamate_watchdog.Diagnostics.Redaction.Tokens.{
  IsGap, IsPlain, Ends, from_start-first, from_start-rest,
}
use teslamate_watchdog.Diagnostics.Redaction.Labelled.{labelled-Ends}
use teslamate_watchdog.Diagnostics.Redaction.Clean.{finds, Rule}
use teslamate_watchdog.Diagnostics.Redaction.Passes.{kept-finds, own-finds, whole-some}

module _ (is_word : ℕ → Bool) where
  jwt-Ends :
      (c : ℕ) (cs : List ℕ) (kept n : ℕ)
      → token_match is_word jwt (c ∷ cs) ≡ some (kept, n)
      → Ends is_token (n - 1) cs
  jwt-Ends c cs kept n h =
      from_start-rest 10 (1 ∷ 1 ∷ []) b'e' (codes "yJ") c cs n
        (whole-some (token_length jwt (c ∷ cs)) kept n h).1

  refresh_token-Ends :
      (c : ℕ) (cs : List ℕ) (kept n : ℕ)
      → token_match is_word refresh_token (c ∷ cs) ≡ some (kept, n)
      → Ends is_token (n - 1) cs
  refresh_token-Ends c cs kept n h =
      from_start-rest 10 [] b'q' (codes "ts-") c cs n
        (whole-some (token_length refresh_token (c ∷ cs)) kept n h).1

  -- A rule for a token of which the first character is one of a token.
  token-Rule :
      (t : Token) (match : List ℕ → Option Match) (replacement : String) (opening : ℕ)
      (body : List ℕ)
      → IsPlain t
      → ((c : ℕ) (cs : List ℕ) → is_token c ≡ false → token_length t (c ∷ cs) ≡ none)
      → codes replacement ≡ opening ∷ body
      → IsGap opening
      → ((before : Bool) (cs : List ℕ)
          → finds is_word t before (codes replacement ++ cs) ≡ finds is_word t (is_word b'>') cs)
      → ((c : ℕ) (cs : List ℕ) (kept n : ℕ)
          → match (c ∷ cs) ≡ some (kept, n)
          → Ends is_token (n - 1) cs)
      → Rule is_word t match replacement
  token-Rule t match replacement opening body plain first opens is_gap quiet ends = record {
    plain = plain;
    first = first;
    opening = opening;
    body = body;
    opens = opens;
    is_gap = is_gap;
    after = is_word b'>';
    quiet = quiet;
    ends = ends;
  }

  jwt-first : (c : ℕ) (cs : List ℕ) → is_token c ≡ false → token_length jwt (c ∷ cs) ≡ none
  unfolding is_token
  jwt-first c cs h = from_start-first 10 (1 ∷ 1 ∷ []) b'e' (codes "yJ") c cs refl h

  refresh_token-first :
      (c : ℕ) (cs : List ℕ) → is_token c ≡ false → token_length refresh_token (c ∷ cs) ≡ none
  unfolding is_token
  refresh_token-first c cs h = from_start-first 10 [] b'q' (codes "ts-") c cs refl h

  jwt-IsPlain : IsPlain jwt
  unfolding is_token
  jwt-IsPlain = (refl, (refl, (refl, tt)))

  refresh_token-IsPlain : IsPlain refresh_token
  unfolding is_token
  refresh_token-IsPlain = (refl, (refl, (refl, (refl, tt))))

  own_jwt : Rule is_word jwt (token_match is_word jwt) "<jwt-redacted>"
  unfolding is_token finds from_start
  own_jwt =
      token-Rule jwt (token_match is_word jwt) "<jwt-redacted>" b'<' (codes "jwt-redacted>")
        jwt-IsPlain jwt-first refl (refl, refl) (λ before cs. refl) jwt-Ends

  jwt_kept : Rule is_word jwt (token_match is_word refresh_token) "<refresh-token-redacted>"
  unfolding is_token finds from_start
  jwt_kept =
      token-Rule jwt (token_match is_word refresh_token) "<refresh-token-redacted>" b'<'
        (codes "refresh-token-redacted>") jwt-IsPlain jwt-first refl (refl, refl)
        (λ before cs. refl) refresh_token-Ends

  own_refresh_token :
      Rule is_word refresh_token (token_match is_word refresh_token) "<refresh-token-redacted>"
  unfolding is_token finds from_start
  own_refresh_token =
      token-Rule refresh_token (token_match is_word refresh_token) "<refresh-token-redacted>" b'<'
        (codes "refresh-token-redacted>") refresh_token-IsPlain refresh_token-first refl
        (refl, refl) (λ before cs. refl) refresh_token-Ends

  jwt_unlabelled : Rule is_word jwt (labelled is_word) " <redacted>"
  unfolding is_token finds from_start
  jwt_unlabelled =
      token-Rule jwt (labelled is_word) " <redacted>" b' ' (codes "<redacted>") jwt-IsPlain
        jwt-first refl (refl, refl) (λ before cs. refl) (labelled-Ends is_word)

  refresh_token_unlabelled : Rule is_word refresh_token (labelled is_word) " <redacted>"
  unfolding is_token finds from_start
  refresh_token_unlabelled =
      token-Rule refresh_token (labelled is_word) " <redacted>" b' ' (codes "<redacted>")
        refresh_token-IsPlain refresh_token-first refl (refl, refl) (λ before cs. refl)
        (labelled-Ends is_word)

  -- In a text that redact returns, whatever the text was and whichever characters count as word
  -- characters, no search finds a token in the form of a JWT or of a refresh token.
  pub redact-hides :
      (text : String)
      → (finds is_word jwt false (codes (redact (redactions is_word) text)) ≡ false)
        × (finds is_word refresh_token false (codes (redact (redactions is_word) text)) ≡ false)
  unfolding redact redactions
  redact-hides text =
      let first = sub is_word (token_match is_word jwt) "<jwt-redacted>" text in
      let second =
        sub is_word (token_match is_word refresh_token) "<refresh-token-redacted>" first in
      (
        kept-finds is_word jwt (labelled is_word) " <redacted>" jwt_unlabelled second (
            kept-finds is_word jwt (token_match is_word refresh_token) "<refresh-token-redacted>"
              jwt_kept first (own-finds is_word jwt "<jwt-redacted>" own_jwt text)),
        kept-finds is_word refresh_token (labelled is_word) " <redacted>" refresh_token_unlabelled
            second
            (own-finds is_word refresh_token "<refresh-token-redacted>" own_refresh_token first),
      )
