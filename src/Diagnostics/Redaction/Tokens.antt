-- ===== src/Diagnostics/Redaction/Tokens.antt =====
-- How the tokens of src/diagnostics.py are found in a text of which parts are replaced.
use teslamate_watchdog.Shared.{
  ℕ, zero, suc, ◌-◌, ◌≡◌, refl, Bool, true, false, ◌&&◌, Option, none, some, List, [], ◌∷◌, ◌==◌,
  arith, Bool-cases, Option-cases, inl, inr, is_some, All,
}
use teslamate_watchdog.Diagnostics.Redaction.{
  is_token, longer, runs, Token, from_start, token_length,
}

-- a character that ends every token
abbrev pub IsGap : ℕ → Type 0
IsGap c = (is_token c ≡ false) × (c == b'.' ≡ false)

-- The second text is the first up to a gap, after which it may be another.
pub data Shares : List ℕ → List ℕ → Type 0 where
  ended : Shares [] []
  gap : (cs : List ℕ) (c : ℕ) (ds : List ℕ) → IsGap c → Shares cs (c ∷ ds)
  both : {cs ds : List ℕ} (c : ℕ) → Shares cs ds → Shares (c ∷ cs) (c ∷ ds)

longer-some : (n : Option ℕ) → is_some (longer n) ≡ is_some n
longer-some none = refl
longer-some (some n) = refl

runs-done : (cs : List ℕ) → is_some (runs 0 [] cs) ≡ true
unfolding runs
runs-done [] = refl
runs-done (c ∷ cs) = elim (Bool-cases (is_token c)) [
  | inl e ↦ rw (e, longer-some (runs 0 [] cs)) (runs-done cs)
  | inr e ↦ rw e refl
]

runs-Shares :
    (need : ℕ) (needs : List ℕ) {cs ds : List ℕ}
    → Shares cs ds
    → is_some (runs need needs ds) ≡ true
    → is_some (runs need needs cs) ≡ true
unfolding runs
runs-Shares need needs ended h = h
runs-Shares need [] (gap cs c ds g) h = elim (Bool-cases (need == 0)) [
  | inl e ↦ let at : need ≡ 0 = ground (arith, e) in rw at (runs-done cs)
  | inr e ↦ absurd (ground (arith, g.0, e))
]
runs-Shares need (m ∷ ms) (gap cs c ds g) h = absurd (ground (arith, g.0, g.1))
runs-Shares need [] (both {cs = cs} {ds = ds} c s) h = elim (Bool-cases (is_token c)) [
  | inl e ↦
      rw (e, longer-some (runs (need - 1) [] cs))
        (runs-Shares (need - 1) [] s (rw⁻¹ (longer-some (runs (need - 1) [] ds)) (rw e at h)))
  | inr e ↦ rw e (rw e at h)
]
runs-Shares need (m ∷ ms) (both {cs = cs} {ds = ds} c s) h = elim (Bool-cases (is_token c)) [
  | inl e ↦
      rw (e, longer-some (runs (need - 1) (m ∷ ms) cs))
        (runs-Shares (need - 1) (m ∷ ms) s
          (rw⁻¹ (longer-some (runs (need - 1) (m ∷ ms) ds)) (rw e at h)))
  | inr e ↦ elim (Bool-cases (need == 0 && c == b'.')) [
    | inl x ↦
        rw (e, x, longer-some (runs m ms cs))
          (runs-Shares m ms s (rw⁻¹ (longer-some (runs m ms ds)) (rw (e, x) at h)))
    | inr x ↦ absurd (ground (arith, e, x))
  ]
]

from_start-Shares :
    (need : ℕ) (needs : List ℕ) (start : List ℕ) {cs ds : List ℕ}
    → All (λ c. is_token c ≡ true) start
    → Shares cs ds
    → is_some (from_start need needs start ds) ≡ true
    → is_some (from_start need needs start cs) ≡ true
unfolding from_start
from_start-Shares need needs [] all s h = runs-Shares need needs s h
from_start-Shares need needs (l ∷ ls) all ended h = absurd (cc h)
from_start-Shares need needs (l ∷ ls) (is_one, all) (gap cs c ds g) h = elim (Bool-cases (l == c)) [
  | inl e ↦ let same : l ≡ c = ground (arith, e) in absurd (cc (is_one, same, g.0))
  | inr e ↦ absurd (ground (arith, e))
]
from_start-Shares need needs (l ∷ ls) (is_one, all) (both {cs = cs} {ds = ds} c s) h =
    elim (Bool-cases (l == c)) [
      | inl e ↦
          rw (e, longer-some (from_start need needs ls cs))
            (from_start-Shares need needs ls all s
              (rw⁻¹ (longer-some (from_start need needs ls ds)) (rw e at h)))
      | inr e ↦ absurd (ground (arith, e))
    ]

-- a token of which the start has token characters
abbrev pub IsPlain : Token → Type 0
IsPlain t = All (λ c. is_token c ≡ true) t.start

pub token_length-Shares :
    (t : Token) {cs ds : List ℕ}
    → IsPlain t
    → Shares cs ds
    → token_length t cs ≡ none
    → token_length t ds ≡ none
token_length-Shares t {cs} {ds} plain s h = elim (Option-cases (token_length t ds)) [
  | inl e ↦ e
  | inr (n, e) ↦
      let found : is_some (token_length t cs) ≡ true =
        from_start-Shares t.need t.needs t.start plain s (rw e refl) in
      absurd (cc (found, h))
]

pub from_start-first :
    (need : ℕ) (needs : List ℕ) (l : ℕ) (ls : List ℕ) (c : ℕ) (cs : List ℕ)
    → is_token l ≡ true
    → is_token c ≡ false
    → from_start need needs (l ∷ ls) (c ∷ cs) ≡ none
unfolding from_start
from_start-first need needs l ls c cs h g = elim (Bool-cases (l == c)) [
  | inl e ↦ let same : l ≡ c = ground (arith, e) in absurd (cc (h, same, g))
  | inr e ↦ rw e refl
]

-- What follows the runs is no token character.
abbrev pub Ends : (ℕ → Bool) → ℕ → List ℕ → Type 0
Ends test n [] = Unit {0}
Ends test zero (c ∷ cs) = test c ≡ false
Ends test (suc n) (c ∷ cs) = Ends test n cs

runs-Ends :
    (need : ℕ) (needs cs : List ℕ) (n : ℕ) → runs need needs cs ≡ some n → Ends is_token n cs
unfolding runs
runs-Ends need needs [] n h = tt
runs-Ends need [] (c ∷ cs) n h = elim (Bool-cases (is_token c)) [
  | inl e ↦ elim (Option-cases (runs (need - 1) [] cs)) [
    | inl x ↦ absurd (ground (arith, e, x, h))
    | inr (m, x) ↦
        let at : n ≡ suc m = ground (arith, e, x, h) in rw at (runs-Ends (need - 1) [] cs m x)
  ]
  | inr e ↦ let at : n ≡ 0 = ground (arith, e, h) in rw at e
]
runs-Ends need (k ∷ ks) (c ∷ cs) n h = elim (Bool-cases (is_token c)) [
  | inl e ↦ elim (Option-cases (runs (need - 1) (k ∷ ks) cs)) [
    | inl x ↦ absurd (ground (arith, e, x, h))
    | inr (m, x) ↦
        let at : n ≡ suc m = ground (arith, e, x, h) in rw at (runs-Ends (need - 1) (k ∷ ks) cs m x)
  ]
  | inr e ↦ elim (Option-cases (runs k ks cs)) [
    | inl x ↦ absurd (ground (arith, e, x, h))
    | inr (m, x) ↦ let at : n ≡ suc m = ground (arith, e, x, h) in rw at (runs-Ends k ks cs m x)
  ]
]

from_start-Ends :
    (need : ℕ) (needs start cs : List ℕ) (n : ℕ)
    → from_start need needs start cs ≡ some n
    → Ends is_token n cs
unfolding from_start
from_start-Ends need needs [] cs n h = runs-Ends need needs cs n h
from_start-Ends need needs (l ∷ ls) [] n h = tt
from_start-Ends need needs (l ∷ ls) (c ∷ cs) n h =
    elim (Option-cases (from_start need needs ls cs)) [
      | inl x ↦ absurd (ground (arith, x, h))
      | inr (m, x) ↦
          let at : n ≡ suc m = ground (arith, x, h) in rw at (from_start-Ends need needs ls cs m x)
    ]

pub from_start-rest :
    (need : ℕ) (needs : List ℕ) (l : ℕ) (ls : List ℕ) (c : ℕ) (cs : List ℕ) (n : ℕ)
    → from_start need needs (l ∷ ls) (c ∷ cs) ≡ some n
    → Ends is_token (n - 1) cs
unfolding from_start
from_start-rest need needs l ls c cs n h = elim (Option-cases (from_start need needs ls cs)) [
  | inl x ↦ absurd (ground (arith, x, h))
  | inr (m, x) ↦
      let at : n - 1 ≡ m = ground (arith, x, h) in rw at (from_start-Ends need needs ls cs m x)
]
