-- ===== src/Diagnostics/Names.antt =====
-- The name of a new bundle is free, and the search for it ends.
use Prim.Native.String as Native
use mathlib.Core.List.{append-nil}
use teslamate_watchdog.Shared.{
  ℕ, zero, suc, ◌≤◌, ◌<◌, String, ◌≡◌, refl, ap, sym, ◌∙◌, ◌≢◌, true, false, not, some, List, [],
  ◌∷◌, ◌++◌, arith, str_eq, eq_iff, keep, length, length-append, inl, inr, Bool-cases,
}
use teslamate_watchdog.Shared.Text.{str}
use teslamate_watchdog.Shared.Text.Decimal.{codes-append, codes-str-injective}
use teslamate_watchdog.Shared.Strings.{codes}
use teslamate_watchdog.Diagnostics.{Entry, exists, numbered, free_from, unique_directory}

-- the entries with another name
abbrev erase : String → List Entry → List Entry
erase name entries = keep (λ e. not (str_eq e.name name)) entries

exists-erase :
    (name other : String) (entries : List Entry)
    → name ≢ other
    → exists name (erase other entries) ≡ exists name entries
unfolding exists
exists-erase name other [] h = refl
exists-erase name other (e ∷ es) h =
    ground (arith, exists-erase name other es h, eq_iff e.name other, eq_iff e.name name)

length-erase-le :
    (name : String) (entries : List Entry) → length (erase name entries) ≤ length entries
length-erase-le name [] = omega arith
length-erase-le name (e ∷ es) = ground (arith, length-erase-le name es)

length-erase :
    (name : String) (entries : List Entry)
    → exists name entries ≡ true
    → length (erase name entries) < length entries
unfolding exists
length-erase name [] h = cc
length-erase name (e ∷ es) h = ground (arith, length-erase name es, length-erase-le name es)

codes-numbered :
    (base_name : String) (k : ℕ)
    → codes (numbered base_name k) ≡ codes base_name ++ 45 ∷ codes (str k)
codes-numbered base_name k = rw (
  codes-append base_name (Native.◌++◌ "-" (Native.◌++◌ (str k) "")),
  codes-append "-" (Native.◌++◌ (str k) ""),
  codes-append (str k) "",
  append-nil,
)

append-cancel : (xs ys zs : List ℕ) → xs ++ ys ≡ xs ++ zs → ys ≡ zs
append-cancel [] ys zs e = e
append-cancel (x ∷ xs) ys zs e = append-cancel xs ys zs (cc e)

numbered-injective :
    (base_name : String) (j k : ℕ) → numbered base_name j ≡ numbered base_name k → j ≡ k
numbered-injective base_name j k e =
    let both = sym (codes-numbered base_name j) ∙ ap codes e ∙ codes-numbered base_name k in
    codes-str-injective j k (cc (append-cancel (codes base_name) _ _ both))

numbered-ne-base : (base_name : String) (k : ℕ) → numbered base_name k ≢ base_name
numbered-ne-base base_name k e =
    let both = sym (codes-numbered base_name k) ∙ ap codes e in
    omega (arith, ap length both, length-append {0} (codes base_name) (45 ∷ codes (str k)))

-- An entry whose name is no candidate makes no difference.
free_from-erase :
    (fuel : ℕ) (entries : List Entry) (base_name candidate : String) (suffix : ℕ) (other : String)
    → candidate ≢ other
    → ((k : ℕ) → suffix ≤ k → numbered base_name k ≢ other)
    → free_from fuel (erase other entries) base_name candidate suffix
      ≡ free_from fuel entries base_name candidate suffix
unfolding free_from
free_from-erase zero entries base_name candidate suffix other h h' = refl
free_from-erase (suc fuel) entries base_name candidate suffix other h h' = rw (
  exists-erase candidate other entries h,
  free_from-erase fuel entries base_name (numbered base_name suffix) (suc suffix) other
      (h' suffix (omega arith)) (λ k le. h' k (omega arith)),
)

-- What is found is free.
free_from-free :
    (fuel : ℕ) (entries : List Entry) (base_name candidate : String) (suffix : ℕ) (name : String)
    → free_from fuel entries base_name candidate suffix ≡ some name
    → exists name entries ≡ false
unfolding free_from
free_from-free zero entries base_name candidate suffix name h = cc
free_from-free (suc fuel) entries base_name candidate suffix name h =
    ground
      (arith, free_from-free fuel entries base_name (numbered base_name suffix) (suc suffix) name)

free_from-total :
    (fuel : ℕ) (entries : List Entry) (base_name candidate : String) (suffix : ℕ)
    → ((k : ℕ) → suffix ≤ k → numbered base_name k ≢ candidate)
    → length entries < fuel
    → (name : String) × (free_from fuel entries base_name candidate suffix ≡ some name)
unfolding free_from
free_from-total zero entries base_name candidate suffix h enough = elim enough [ ]
free_from-total (suc fuel) entries base_name candidate suffix h enough =
    elim (Bool-cases (exists candidate entries)) [
      | inl taken ↦
          let next = numbered base_name suffix in
          let later : (k : ℕ) → suc suffix ≤ k → numbered base_name k ≢ next =
            λ k le e. absurd (omega (arith, numbered-injective base_name k suffix e)) in
          let (name, found) =
            free_from-total fuel (erase candidate entries) base_name next (suc suffix) later
              (omega (arith, length-erase candidate entries taken)) in
          let same =
            free_from-erase fuel entries base_name next (suc suffix) candidate
              (h suffix (omega arith)) (λ k le. h k (omega arith)) in
          (name, rw taken (sym same ∙ found))
      | inr free ↦ (candidate, rw free)
    ]

-- The search for the name of a bundle ends, with a name that no entry of the directory has.
pub unique_directory-fresh :
    (entries : List Entry) (base_name : String)
    → (name : String) × (unique_directory entries base_name ≡ some name)
      × (exists name entries ≡ false)
unfolding unique_directory
unique_directory-fresh entries base_name =
    let (name, found) =
      free_from-total (suc (length entries)) entries base_name base_name 2
        (λ k le. numbered-ne-base base_name k) (omega arith) in
    (name, found, free_from-free (suc (length entries)) entries base_name base_name 2 name found)
