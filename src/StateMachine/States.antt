-- ===== src/StateMachine/States.antt =====
-- src/state_machine.py: the states, and the sets of states that govern restarts.
use teslamate_watchdog.Shared.{ℕ, String, ◌≡◌, ◌↔◌, Bool, true, List, [], ◌∷◌, arith, ◌==◌, any}

pub data State : Type 0 where
  starting healthy logged_out logger_unhealthy teslamate_unreachable database_unhealthy : State
  auth_refresh_failed recovering manual_intervention_required : State

-- `state.value`
abbrev pub value : State → String
value starting = "STARTING"
value healthy = "HEALTHY"
value logged_out = "LOGGED_OUT"
value logger_unhealthy = "LOGGER_UNHEALTHY"
value teslamate_unreachable = "TESLAMATE_UNREACHABLE"
value database_unhealthy = "DATABASE_UNHEALTHY"
value auth_refresh_failed = "AUTH_REFRESH_FAILED"
value recovering = "RECOVERING"
value manual_intervention_required = "MANUAL_INTERVENTION_REQUIRED"

-- the place of a member in the enumeration
abbrev pub ordinal : State → ℕ
ordinal starting = 0
ordinal healthy = 1
ordinal logged_out = 2
ordinal logger_unhealthy = 3
ordinal teslamate_unreachable = 4
ordinal database_unhealthy = 5
ordinal auth_refresh_failed = 6
ordinal recovering = 7
ordinal manual_intervention_required = 8

-- `a is b` on members of the enumeration
unfoldable pub is : State → State → Bool
is a b = ordinal a == ordinal b

-- `state in states`
abbrev pub is_in : State → List State → Bool
is_in s states = any (is s) states

abbrev pub restart_allowed_states : List State
restart_allowed_states = logger_unhealthy ∷ teslamate_unreachable ∷ logged_out ∷ []

abbrev pub restart_needs_tesla_auth : List State
restart_needs_tesla_auth = logged_out ∷ []

abbrev pub restart_forbidden_states : List State
restart_forbidden_states = auth_refresh_failed ∷ database_unhealthy ∷ []

abbrev pub failure_states : List State
failure_states =
    logged_out ∷ logger_unhealthy ∷ teslamate_unreachable ∷ database_unhealthy ∷ auth_refresh_failed
    ∷ manual_intervention_required ∷ []

abbrev pub auth_states : List State
auth_states = logged_out ∷ auth_refresh_failed ∷ []

unfoldable pub restart_allowed_for_state : State → Bool
unfolding is
restart_allowed_for_state s = is_in s restart_allowed_states

pub is_iff : (a b : State) → (is a b ≡ true) ↔ (a ≡ b)
unfolding is
is_iff a b = ground arith

pub is_self : (a : State) → is a a ≡ true
is_self a = (is_iff a a).1 (ground arith)
