-- ===== src/Shared/Json.antt =====
-- Values that `json.loads` returns and `json.dumps` writes. A number that the program reads is a
-- time, in microseconds; no negative one is written.
use teslamate_watchdog.Shared.{ℕ, String, Bool, Option, none, some, str_eq, if◌then◌else◌}

mutual
  pub data Json : Type 0 where
    null : Json
    bool : Bool → Json
    num : ℕ → Json
    text : String → Json
    arr : Items → Json
    obj : Fields → Json

  pub data Items : Type 0 where
    nil : Items
    cons : Json → Items → Items

  pub data Fields : Type 0 where
    end : Fields
    field : String → Json → Fields → Fields

-- `d.get(key)`
abbrev pub get : String → Fields → Option Json
get key end = none
get key (field k v rest) = if str_eq k key then some v else get key rest

-- `d[key] = value`
abbrev pub put : String → Json → Fields → Fields
put key v end = field key v end
put key v (field k w rest) = if str_eq k key then field k v rest else field k w (put key v rest)

-- `{**d, **e}`
abbrev pub merge : Fields → Fields → Fields
merge d end = d
merge d (field k v rest) = merge (put k v d) rest

-- a value or `None`
abbrev pub opt_text : Option String → Json
opt_text none = Json.null
opt_text (some s) = Json.text s

abbrev pub opt_num : Option ℕ → Json
opt_num none = Json.null
opt_num (some n) = Json.num n

abbrev pub opt_bool : Option Bool → Json
opt_bool none = Json.null
opt_bool (some b) = Json.bool b

-- `value[key]`, of a dict that has the key
abbrev pub get_in : String → Option Json → Option Json
get_in key (some (Json.obj fields)) = get key fields
get_in key _ = none
