-- ===== src/Diagnostics/Redaction/Labelled.antt =====
-- Where a match of the third pattern of src/diagnostics.py ends.
use teslamate_watchdog.Shared.{
  ℕ, zero, suc, ◌+◌, ◌-◌, ◌≡◌, Bool, true, some, List, [], ◌∷◌, leb, map, drop, arith, Bool-cases,
  Option-cases, inl, inr,
}
use mathlib.Core.Path.{subst}
use teslamate_watchdog.Shared.Strings.{is_space}
use teslamate_watchdog.Diagnostics.Redaction.{
  is_token, is_value, run_length, sign_length, value_length, one_of, labels, fold_letter, boundary,
  labelled,
}
use teslamate_watchdog.Diagnostics.Redaction.Tokens.{Ends}

run_length-Ends : (test : ℕ → Bool) (cs : List ℕ) → Ends test (run_length test cs) cs
unfolding run_length
run_length-Ends test [] = tt
run_length-Ends test (c ∷ cs) = elim (Bool-cases (test c)) [
  | inl e ↦ rw e (run_length-Ends test cs)
  | inr e ↦ rw e e
]

drop-Ends :
    (test : ℕ → Bool) (m n : ℕ) (cs : List ℕ) → Ends test n (drop m cs) → Ends test (m + n) cs
drop-Ends test zero n cs h = let at : 0 + n ≡ n = omega arith in rw at h
drop-Ends test (suc m) n [] h = tt
drop-Ends test (suc m) n (c ∷ cs) h =
    let at : suc m + n ≡ suc (m + n) = omega arith in rw at (drop-Ends test m n cs h)

-- a character that ends a value ends a token
value-Ends : (n : ℕ) (cs : List ℕ) → Ends is_value n cs → Ends is_token n cs
unfolding is_value
value-Ends n [] h = tt
value-Ends zero (c ∷ cs) h = ground (arith, h)
value-Ends (suc n) (c ∷ cs) h = value-Ends n cs h

value_length-Ends :
    (cs : List ℕ) (n : ℕ) → value_length cs ≡ some n → Ends is_value n cs × ((m : ℕ) × (n ≡ suc m))
unfolding value_length
value_length-Ends cs n h =
    let spaces = run_length is_space cs in
    let sign = spaces + sign_length (drop spaces cs) in
    let gap = sign + run_length is_space (drop sign cs) in
    let k = run_length is_value (drop gap cs) in
    elim (Bool-cases (leb 12 k)) [
      | inr e ↦ absurd (cc (rw e at h))
      | inl e ↦
          let at : gap + k ≡ n = cc (rw e at h) in
          (
            subst (λ x. Ends is_value x cs) at
                (drop-Ends is_value gap k cs (run_length-Ends is_value (drop gap cs))),
            (n - 1, ground (arith, at, e)),
          )
    ]

pub labelled-Ends :
    (is_word : ℕ → Bool) (c : ℕ) (cs : List ℕ) (kept n : ℕ)
    → labelled is_word (c ∷ cs) ≡ some (kept, n)
    → Ends is_token (n - 1) cs
unfolding labelled
labelled-Ends is_word c cs kept n h =
    elim (Option-cases (one_of labels (map fold_letter (c ∷ cs)))) [
      | inl e ↦ absurd (cc (rw (labelled, e) at h))
      | inr (k, e) ↦ elim (Bool-cases (boundary is_word true (drop k (c ∷ cs)))) [
        | inr x ↦ absurd (cc (rw (labelled, e, x) at h))
        | inl x ↦ elim (Option-cases (value_length (drop k (c ∷ cs)))) [
          | inl y ↦ absurd (cc (rw (labelled, e, x, y) at h))
          | inr (m, y) ↦
              let at : k + m ≡ n = cc (rw (labelled, e, x, y) at h) in
              let (ends, (less, one_more)) = value_length-Ends (drop k (c ∷ cs)) m y in
              let whole : Ends is_token (k + m) (c ∷ cs) =
                value-Ends (k + m) (c ∷ cs) (drop-Ends is_value k m (c ∷ cs) ends) in
              let next : k + m ≡ suc (n - 1) = omega (arith, at, one_more) in
              subst (λ x. Ends is_token x (c ∷ cs)) next whole
        ]
      ]
    ]
