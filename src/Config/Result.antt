-- ===== src/Config/Result.antt =====
-- What reading the environment gives: a value, a `ConfigError` with its message, or another
-- exception, which `main` does not catch.
use teslamate_watchdog.Shared.{String, ◌≡◌, ◌↔◌, refl, Bool, true, false}

pub data Result {ℓ} (A : Type ℓ) : Type ℓ where
  ok : A → Result A
  config_error : String → Result A
  uncaught : Result A

infixl 5 ◌>>=◌ ◌>>◌
abbrev pub ◌>>=◌ {ℓ κ} : {A : Type ℓ} {B : Type κ} → Result A → (A → Result B) → Result B
ok a >>= f = f a
config_error message >>= f = config_error message
uncaught >>= f = uncaught

abbrev pub ◌>>◌ {ℓ} : {B : Type ℓ} → Result (Unit {0}) → Result B → Result B
m >> k = m >>= λ _. k

-- `if refused: raise ConfigError(message)`
abbrev pub refuse_if : Bool → String → Result (Unit {0})
refuse_if true message = config_error message
refuse_if false message = ok tt

-- A check that is passed before what follows.
pub refuse_if-passed {ℓ} :
    {A : Type ℓ} (refused : Bool) (message : String) (k : Result A) (a : A)
    → ((refuse_if refused message >> k) ≡ ok a) ↔ ((refused ≡ false) × (k ≡ ok a))
refuse_if-passed true message k a = (λ h. cc, λ h. cc h.0)
refuse_if-passed false message k a = (λ h. (refl, h), λ h. h.1)

-- A step that is passed before what follows.
pub >>=-eq-ok {ℓ κ} :
    {A : Type ℓ} {B : Type κ} (m : Result A) (f : A → Result B) (b : B)
    → (m >>= f) ≡ ok b
    → (a : A) × (m ≡ ok a) × (f a ≡ ok b)
>>=-eq-ok (ok a) f b h = (a, refl, h)
>>=-eq-ok (config_error message) f b h = cc
>>=-eq-ok uncaught f b h = cc

pub refuse_if-ok :
    (refused : Bool) (message : String) → (refuse_if refused message ≡ ok tt) ↔ (refused ≡ false)
refuse_if-ok true message = (λ h. cc, λ h. cc)
refuse_if-ok false message = (λ h. refl, λ h. refl)
