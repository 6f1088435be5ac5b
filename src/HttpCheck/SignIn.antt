-- ===== src/HttpCheck/SignIn.antt =====
-- What a sign-in page is, apart from the search of `_find_signin_marker` in src/http_check.py.
use mathlib.Core.Path.{subst}
use teslamate_watchdog.Shared.{
  ℕ, String, ◌≡◌, refl, ap, ◌↔◌, ◌≢◌, ◌⊎◌, inl, inr, Bool, true, false, ◌&&◌, ◌||◌, none, List, [],
  ◌∷◌, ◌++◌, ◌==◌, arith, map, drop, All, Bool-cases, Option-cases,
}
use teslamate_watchdog.Shared.Strings.{codes, begins, has, contains}
use teslamate_watchdog.HttpCheck.{
  fold, at_sign_in, in_tag, has_signin_form, first_marker, find_signin_marker,
}

-- one list of code points stands in another
pub record Occurs (part whole : List ℕ) : Type 0 where
  pub before : List ℕ
  pub after : List ℕ
  pub parts : whole ≡ before ++ (part ++ after)

begins-prefix : (part cs : List ℕ) → begins part cs ≡ true → (after : List ℕ) × (cs ≡ part ++ after)
begins-prefix [] cs h = (cs, refl)
begins-prefix (p ∷ ps) [] h = absurd (cc h)
begins-prefix (p ∷ ps) (c ∷ cs) h =
    let (after, e) = begins-prefix ps cs (ground (arith, h)) in
    let same : c ≡ p = ground (arith, h) in (after, rw same (ap (λ x. p ∷ x) e))

begins-append : (part after : List ℕ) → begins part (part ++ after) ≡ true
begins-append [] after = refl
begins-append (p ∷ ps) after = ground (arith, begins-append ps after)

has-Occurs : (part cs : List ℕ) → has part cs ≡ true → Occurs part cs
has-Occurs part [] h =
    let (after, e) = begins-prefix part [] h in record { before = []; after = after; parts = e }
has-Occurs part (c ∷ cs) h = elim (Bool-cases (begins part (c ∷ cs))) [
  | inl e ↦
      let (after, e') = begins-prefix part (c ∷ cs) e in
      record { before = []; after = after; parts = e' }
  | inr e ↦
      let o = has-Occurs part cs (ground (arith, h, e)) in
      record { before = c ∷ o.before; after = o.after; parts = rw (← o.parts) refl }
]

begins-has : (part cs : List ℕ) → begins part cs ≡ true → has part cs ≡ true
begins-has part [] h = h
begins-has part (c ∷ cs) h = rw h refl

has-append : (part before after : List ℕ) → has part (before ++ (part ++ after)) ≡ true
has-append part [] after = begins-has part (part ++ after) (begins-append part after)
has-append part (b ∷ before) after = ground (arith, has-append part before after)

contains-Occurs : (part s : String) → (contains part s ≡ true) ↔ Occurs (codes part) (codes s)
contains-Occurs part s =
    (has-Occurs (codes part) (codes s), λ o. rw o.parts (has-append (codes part) o.before o.after))

-- `signin`, `sign_in` or `sign-in`
abbrev pub IsSignIn : List ℕ → Type 0
IsSignIn name = (name ≡ codes "signin") ⊎ (name ≡ codes "sign_in") ⊎ (name ≡ codes "sign-in")

-- The text goes on with a sign-in name, with no `>` before it.
pub record NamesSignIn (cs : List ℕ) : Type 0 where
  pub gap : List ℕ
  pub name : List ℕ
  pub after : List ℕ
  pub parts : cs ≡ gap ++ (name ++ after)
  pub inside : All (λ c. c ≢ b'>') gap
  pub is_name : IsSignIn name

-- The text has a form element whose tag names the sign-in.
pub record HasForm (cs : List ℕ) : Type 0 where
  pub before : List ℕ
  pub rest : List ℕ
  pub parts : cs ≡ before ++ (codes "<form" ++ rest)
  pub names : NamesSignIn rest

at_sign_in-Names : (cs : List ℕ) → at_sign_in cs ≡ true → NamesSignIn cs
at_sign_in-Names cs h = elim (Bool-cases (begins (codes "signin") cs)) [
  | inl e ↦
      let (after, parts) = begins-prefix (codes "signin") cs e in
      record {
        gap = [];
        name = codes "signin";
        after = after;
        parts = parts;
        inside = tt;
        is_name = inl refl;
      }
  | inr e ↦ elim (Bool-cases (begins (codes "sign_in") cs)) [
    | inl e' ↦
        let (after, parts) = begins-prefix (codes "sign_in") cs e' in
        record {
          gap = [];
          name = codes "sign_in";
          after = after;
          parts = parts;
          inside = tt;
          is_name = inr (inl refl);
        }
    | inr e' ↦
        let (after, parts) = begins-prefix (codes "sign-in") cs (rw (e, e') at h) in
        record {
          gap = [];
          name = codes "sign-in";
          after = after;
          parts = parts;
          inside = tt;
          is_name = inr (inr refl);
        }
  ]
]

IsSignIn-at : (name after : List ℕ) → IsSignIn name → at_sign_in (name ++ after) ≡ true
IsSignIn-at name after (inl e) = rw e refl
IsSignIn-at name after (inr (inl e)) = rw e refl
IsSignIn-at name after (inr (inr e)) = rw e refl

in_tag-Names : (cs : List ℕ) → in_tag cs ≡ true → NamesSignIn cs
unfolding in_tag
in_tag-Names [] h = absurd (cc h)
in_tag-Names (c ∷ cs) h = elim (Bool-cases (at_sign_in (c ∷ cs))) [
  | inl e ↦ at_sign_in-Names (c ∷ cs) e
  | inr e ↦
      let n = in_tag-Names cs (ground (arith, h, e)) in
      record {
        gap = c ∷ n.gap;
        name = n.name;
        after = n.after;
        parts = rw (← n.parts) refl;
        inside = (ground (arith, h, e), n.inside);
        is_name = n.is_name;
      }
]

at-in_tag : (cs : List ℕ) → at_sign_in cs ≡ true → in_tag cs ≡ true
unfolding in_tag
at-in_tag [] h = absurd (cc h)
at-in_tag (c ∷ cs) h = rw h refl

in_tag-later :
    (c : ℕ) (cs : List ℕ) → (c == b'>') ≡ false → in_tag cs ≡ true → in_tag (c ∷ cs) ≡ true
unfolding in_tag
in_tag-later c cs other h = elim (Bool-cases (at_sign_in (c ∷ cs))) [
  | inl e ↦ rw e refl
  | inr e ↦ rw (e, other, h) refl
]

and_left : (a b : Bool) → a && b ≡ true → a ≡ true
and_left true b h = refl
and_left false b h = h

and_right : (a b : Bool) → a && b ≡ true → b ≡ true
and_right true b h = h
and_right false b h = absurd (cc h)

or_right : (a b : Bool) → a ≡ false → a || b ≡ true → b ≡ true
or_right true b e h = absurd (cc e)
or_right false b e h = h

or_true : (a b : Bool) → b ≡ true → a || b ≡ true
or_true true b h = refl
or_true false b h = h

in_tag-append :
    (gap name after : List ℕ)
    → All (λ c. c ≢ b'>') gap
    → IsSignIn name
    → in_tag (gap ++ (name ++ after)) ≡ true
unfolding in_tag
in_tag-append [] name after inside is_name =
    at-in_tag (name ++ after) (IsSignIn-at name after is_name)
in_tag-append (g ∷ gap) name after (here, inside) is_name =
    let cs = gap ++ (name ++ after) in
    let later = in_tag-append gap name after inside is_name in
    let other : (g == b'>') ≡ false = ground (arith, here) in in_tag-later g cs other later

has_signin_form-HasForm : (cs : List ℕ) → has_signin_form cs ≡ true → HasForm cs
unfolding has_signin_form
has_signin_form-HasForm [] h = absurd (cc h)
has_signin_form-HasForm (c ∷ cs) h =
    elim (Bool-cases (begins (codes "<form") (c ∷ cs) && in_tag (drop 5 (c ∷ cs)))) [
      | inl e ↦
          let (rest, parts) = begins-prefix (codes "<form") (c ∷ cs) (and_left _ _ e) in
          let tagged : in_tag (drop 5 (c ∷ cs)) ≡ true =
            and_right (begins (codes "<form") (c ∷ cs)) (in_tag (drop 5 (c ∷ cs))) e in
          record {
            before = [];
            rest = rest;
            parts = parts;
            names = in_tag-Names rest (subst (λ x. in_tag (drop 5 x) ≡ true) parts tagged);
          }
      | inr e ↦
          let f = has_signin_form-HasForm cs (or_right _ _ e h) in
          record {
            before = c ∷ f.before;
            rest = f.rest;
            parts = rw (← f.parts) refl;
            names = f.names;
          }
    ]

form-append :
    (before rest : List ℕ)
    → in_tag rest ≡ true
    → has_signin_form (before ++ (codes "<form" ++ rest)) ≡ true
unfolding has_signin_form
form-append [] rest h = rw h refl
form-append (b ∷ before) rest h =
    or_true
      (begins (codes "<form") (b ∷ before ++ (codes "<form" ++ rest))
        && in_tag (drop 5 (b ∷ before ++ (codes "<form" ++ rest))))
      _ (form-append before rest h)

HasForm-has_signin_form : (cs : List ℕ) → HasForm cs → has_signin_form cs ≡ true
HasForm-has_signin_form cs f =
    let n = f.names in
    rw f.parts (
      form-append f.before f.rest
        (rw n.parts (in_tag-append n.gap n.name n.after n.inside n.is_name)))

module _ (lower : String → String) where
  -- one of the markers stands in the text, with capital letters made small in both
  abbrev pub HasMarker : List String → String → Type 0
  HasMarker [] text = ⊥
  HasMarker (m ∷ ms) text = Occurs (codes (lower m)) (codes (lower text)) ⊎ HasMarker ms text

  -- A sign-in page: a marker stands in it, or a form whose tag names the sign-in, as
  -- `re.IGNORECASE` compares letters.
  abbrev pub ShowsSignIn : List String → String → Type 0
  ShowsSignIn markers text = HasMarker markers text ⊎ HasForm (map fold (codes text))

  first_marker-HasMarker :
      (all markers : List String) (search : String → Bool) (decode : List ℕ → String)
      (text : String)
      → (first_marker lower decode search all (lower text) (map lower markers) ≢ none)
        ↔ HasMarker markers text
  first_marker-HasMarker all [] search decode text = (λ h. h refl, λ h. absurd h)
  first_marker-HasMarker all (m ∷ ms) search decode text =
      let stands = contains-Occurs (lower m) (lower text) in
      let later = first_marker-HasMarker all ms search decode text in
      elim (Bool-cases (contains (lower m) (lower text))) [
        | inl e ↦ (λ _. inl (stands.0 e), λ _ n. cc (rw e at n))
        | inr e ↦ (
          λ h. inr (later.0 (λ n. h (rw e n))),
          λ h n. elim h [ inl o ↦ cc (stands.1 o, e) | inr x ↦ later.1 x (rw e at n) ],
        )
      ]

  pub find_signin_marker-ShowsSignIn :
      (markers : List String) (search : String → Bool) (decode : List ℕ → String) (text : String)
      → (find_signin_marker lower decode search markers text ≢ none) ↔ ShowsSignIn markers text
  unfolding find_signin_marker
  find_signin_marker-ShowsSignIn markers search decode text =
      let shown = first_marker-HasMarker markers markers search decode text in
      let folded = map fold (codes text) in
      elim (Option-cases
        (first_marker lower decode search markers (lower text) (map lower markers))) [
          | inr (m, e) ↦
              (λ _. inl (shown.0 (λ n. cc (n, e))), λ _ n. cc (rw (find_signin_marker, e) at n))
          | inl e ↦ elim (Bool-cases (has_signin_form folded)) [
            | inl f ↦ (
              λ _. inr (has_signin_form-HasForm folded f),
              λ _ n. cc (rw (find_signin_marker, e, f) at n),
            )
            | inr f ↦ (
              λ h. absurd (h (rw (find_signin_marker, e, f) refl)),
              λ s. elim s [
                | inl m ↦ absurd (shown.1 m e)
                | inr form ↦ cc (HasForm-has_signin_form folded form, f)
              ],
            )
          ]
        ]
