-- ===== src/StateMachine.antt =====
-- src/state_machine.py: what one check cycle learned, the decision on it, and the machine that
-- confirms a decision over several cycles before it changes state.
pub mod States
pub mod Decision
pub mod Confirmation
pub use States.{
  State, starting, healthy, logged_out, logger_unhealthy, teslamate_unreachable, database_unhealthy,
  auth_refresh_failed, recovering, manual_intervention_required,
}
use teslamate_watchdog.Shared.{
  ℕ, suc, String, Bool, true, false, not, ◌||◌, Option, none, some, List, [], ◌∷◌, leb, is_false,
  if◌then◌else◌,
}
use teslamate_watchdog.Shared.Text.{fstring, str, show_opt}
use teslamate_watchdog.Config.{Config}
use teslamate_watchdog.HttpCheck.{
  HttpResult, is_authenticated, is_logged_out, is_unreachable, is_application_error,
}
use States.{is}

pub record LogSignals : Type 0 where
  pub auth_refresh_failing : Bool
  pub auth_lost : Bool
  pub database_failure : Bool
  pub token_decryption_failure : Bool
  pub refresh_success : Bool
  pub matches : List (String × ℕ)

pub record Observation : Type 0 where
  pub http : HttpResult
  pub logger_healthy : Option Bool
  pub logger_stale : Bool
  pub logger_detail : String
  pub database_healthy : Option Bool
  pub teslamate_container_running : Option Bool
  pub log_signals : Option LogSignals

pub record Evaluation : Type 0 where
  pub state : State
  pub reason : String
  -- skip the counting of confirmations
  pub immediate : Bool
  -- the check told nothing usable
  pub inconclusive : Bool

pub record Transition : Type 0 where
  pub previous : State
  pub current : State
  pub reason : String

-- `Evaluation(state, reason)`, with the defaults of the dataclass
abbrev pub verdict : State → String → Evaluation
verdict s r = record { state = s; reason = r; immediate = false; inconclusive = false }

-- `signals is not None and signals.token_decryption_failure`
abbrev pub decryption_failed : Option LogSignals → Bool
decryption_failed none = false
decryption_failed (some s) = s.token_decryption_failure

-- `signals is not None and (signals.auth_refresh_failing or signals.auth_lost)`
abbrev pub refresh_failed : Option LogSignals → Bool
refresh_failed none = false
refresh_failed (some s) = s.auth_refresh_failing || s.auth_lost

-- a status code in an f-string
abbrev show_status : Option ℕ → String
show_status none = "None"
show_status (some n) = str n

-- The first match wins.
unfoldable pub evaluate : Observation → Evaluation
evaluate o =
    if is_false o.database_healthy
    then verdict database_unhealthy "database reported unhealthy"
    else if is_false o.teslamate_container_running
    then record {
      state = teslamate_unreachable;
      reason = "teslamate container is not running";
      immediate = true;
      inconclusive = false;
    }
    else if is_logged_out o.http.category
    then verdict logged_out
        (fstring ("sign-in page detected (" ∷ show_opt o.http.detail ∷ ")" ∷ []))
    else if is_unreachable o.http.category
    then verdict teslamate_unreachable
        (fstring ("http unreachable (" ∷ show_opt o.http.error ∷ ")" ∷ []))
    else if is_application_error o.http.category
    then verdict teslamate_unreachable
        (fstring ("http " ∷ show_status o.http.status_code ∷ " server error" ∷ []))
    else if decryption_failed o.log_signals
    then verdict auth_refresh_failed "logs show API tokens could not be decrypted"
    else if refresh_failed o.log_signals
    then verdict auth_refresh_failed "logs show repeated token-refresh failure"
    else if is_false o.logger_healthy
    then verdict logger_unhealthy
        (fstring ("vehicle logger reports unhealthy (" ∷ o.logger_detail ∷ ")" ∷ []))
    else if o.logger_stale
    then verdict logger_unhealthy (fstring ("vehicle logger stale (" ∷ o.logger_detail ∷ ")" ∷ []))
    else if not (is_authenticated o.http.category)
    then record {
      state = healthy;
      reason = fstring ("inconclusive http result (" ∷ show_opt o.http.detail ∷ ")" ∷ []);
      immediate = false;
      inconclusive = true;
    }
    else verdict healthy "all checks passing"

-- The attributes of `StateMachine`, less the configuration.
pub record Machine : Type 0 where
  pub state : State
  pub reason : String
  pub candidate : Option State
  pub candidate_streak : ℕ
  pub healthy_streak : ℕ
  pub last_evaluation : Option Evaluation

-- `StateMachine(config, initial=…)`
unfoldable pub new_machine : State → Machine
new_machine initial = record {
  state = initial;
  reason = "watchdog starting";
  candidate = none;
  candidate_streak = 0;
  healthy_streak = 0;
  last_evaluation = none;
}

-- `evaluation.state is self._candidate`
abbrev pub is_candidate : State → Option State → Bool
is_candidate s none = false
is_candidate s (some c) = is s c

-- how many agreeing checks confirm a failure
unfoldable pub required : Config → State → ℕ
required c s =
    if is s logger_unhealthy
    then c.logger_unhealthy_confirmation_count
    else c.failure_confirmation_count

-- `_observe_healthy`
unfoldable pub observe_healthy : Config → Evaluation → Machine → Machine × Option Transition
observe_healthy c e m =
    let counted = record m {
      healthy_streak = suc m.healthy_streak;
      candidate = none;
      candidate_streak = 0;
    } in
    if is m.state healthy || not (leb c.recovery_confirmation_count counted.healthy_streak)
    then (counted, none)
    else (
      record counted { state = healthy; reason = e.reason },
      some (record { previous = m.state; current = healthy; reason = e.reason }),
    )

-- `_observe_failure`
unfoldable pub observe_failure : Config → Evaluation → Machine → Machine × Option Transition
observe_failure c e m =
    let counted = record m {
      healthy_streak = 0;
      candidate = some e.state;
      candidate_streak = if is_candidate e.state m.candidate then suc m.candidate_streak else 1;
    } in
    if not (e.immediate || leb (required c e.state) counted.candidate_streak) || is m.state e.state
    then (counted, none)
    else (
      record counted { state = e.state; reason = e.reason },
      some (record { previous = m.state; current = e.state; reason = e.reason }),
    )

-- `StateMachine.step`
unfoldable pub step : Config → Observation → Machine → Machine × Option Transition
unfolding observe_healthy observe_failure
step c o m =
    if is m.state recovering
    then (m, none)
    else let e = evaluate o in
      let seen = record m { last_evaluation = some e } in
      if e.inconclusive
      then (seen, none)
      else if is e.state healthy
      then observe_healthy c e seen
      else observe_failure c e seen

-- `StateMachine.force_state`
unfoldable pub force_state : State → String → Machine → Machine × Transition
force_state s reason m = (
  record m {
    state = s;
    reason = reason;
    candidate = none;
    candidate_streak = 0;
    healthy_streak = 0;
  },
  record { previous = m.state; current = s; reason = reason },
)
