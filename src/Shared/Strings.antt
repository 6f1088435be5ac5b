-- ===== src/Shared/Strings.antt =====
-- The `str` methods that the program calls, character by character.
use Prim.Native.Char.{code}
use Prim.Native.String.{String, ◌++◌}
use mathlib.Core.Bool.{Bool, true, false, ◌&&◌, ◌||◌}
use mathlib.Core.List.{List, [], ◌∷◌}
use Prim.Native.Nat.{ℕ, zero, suc}
use teslamate_watchdog.Shared.Tests.{leb, ◌==◌, str_eq, if◌then◌else◌}

-- the code points of a text
abbrev pub codes : String → List ℕ
codes String.[] = []
codes (String.◌∷◌ c s) = code c ∷ codes s

-- `len(s)`
abbrev pub text_length : String → ℕ
text_length String.[] = 0
text_length (String.◌∷◌ _ s) = suc (text_length s)

-- `c.isspace()`
unfoldable pub is_space : ℕ → Bool
is_space c =
    leb 9 c && leb c 13
    || leb 28 c && leb c 32
    || c == 133
    || c == 160
    || c == 5760
    || leb 8192 c && leb c 8202
    || c == 8232
    || c == 8233
    || c == 8239
    || c == 8287
    || c == 12288

abbrev pub lstrip : String → String
lstrip String.[] = ""
lstrip (String.◌∷◌ c s) = let rest = lstrip s in if is_space (code c) then rest else String.◌∷◌ c s

abbrev pub rstrip : String → String
rstrip String.[] = ""
rstrip (String.◌∷◌ c s) =
    let rest = rstrip s in if is_space (code c) && str_eq rest "" then "" else String.◌∷◌ c rest

-- `s.strip()`
abbrev pub strip : String → String
strip s = rstrip (lstrip s)

-- one more character of the first segment
abbrev onto_first : String → List String → List String
onto_first c [] = c ∷ []
onto_first c (s ∷ ss) = (c ++ s) ∷ ss

-- `s.split(sep)` for a separator of one character
abbrev pub split_at : ℕ → String → List String
split_at sep String.[] = "" ∷ []
split_at sep (String.◌∷◌ c s) =
    let rest = split_at sep s in
    if code c == sep then "" ∷ rest else onto_first (String.◌∷◌ c "") rest

-- `[part for part in parts if part]`
abbrev pub non_empty : List String → List String
non_empty [] = []
non_empty (s ∷ ss) = let rest = non_empty ss in if str_eq s "" then rest else s ∷ rest

-- `separator.join(parts)`
abbrev pub join : String → List String → String
join sep [] = ""
join sep (s ∷ []) = s
join sep (s ∷ t ∷ ss) = s ++ (sep ++ join sep (t ∷ ss))

-- `s.endswith(suffix)`
abbrev pub ends_with : String → String → Bool
ends_with suffix String.[] = str_eq "" suffix
ends_with suffix (String.◌∷◌ c s) = str_eq (String.◌∷◌ c s) suffix || ends_with suffix s

-- whether a list of code points begins with another
abbrev pub begins : List ℕ → List ℕ → Bool
begins [] s = true
begins (p ∷ ps) [] = false
begins (p ∷ ps) (c ∷ cs) = p == c && begins ps cs

abbrev pub has : List ℕ → List ℕ → Bool
has part [] = begins part []
has part (c ∷ cs) = begins part (c ∷ cs) || has part cs

-- `part in s`
abbrev pub contains : String → String → Bool
contains part s = has (codes part) (codes s)

-- `part in parts`
abbrev pub is_one_of : String → List String → Bool
is_one_of s [] = false
is_one_of s (t ∷ ts) = str_eq s t || is_one_of s ts

-- `s.startswith(prefix)`
abbrev pub starts_with : String → String → Bool
starts_with prefix s = begins (codes prefix) (codes s)

-- `s.rstrip("/")`
abbrev pub rstrip_slashes : String → String
rstrip_slashes String.[] = ""
rstrip_slashes (String.◌∷◌ c s) =
    let rest = rstrip_slashes s in
    if code c == b'/' && str_eq rest "" then "" else String.◌∷◌ c rest

-- `s[n:]`
abbrev pub drop_chars : ℕ → String → String
drop_chars zero s = s
drop_chars (suc n) String.[] = ""
drop_chars (suc n) (String.◌∷◌ c s) = drop_chars n s

-- `s.replace(old, new, 1)`, for a text `old` that is not empty
abbrev pub replace_first : String → String → String → String
replace_first old new String.[] = ""
replace_first old new (String.◌∷◌ c s) =
    let rest = replace_first old new s in
    if starts_with old (String.◌∷◌ c s)
    then new ++ drop_chars (text_length old) (String.◌∷◌ c s)
    else String.◌∷◌ c rest
