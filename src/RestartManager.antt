-- ===== src/RestartManager.antt =====
-- src/restart_manager.py: the history of restarts, its file, and the guard on a further restart.
-- A time is a number of microseconds; the rounding of Python's floats is not modelled.
pub mod Persistence
pub mod Guard
pub mod Limits
use teslamate_watchdog.Shared.{
  ℕ, ◌+◌, ◌-◌, ◌*◌, ◌/◌, ◌<◌, String, Bool, true, false, not, Option, none, some, List, [], ◌∷◌,
  ◌++◌, map, ltb, leb, is_true, if◌then◌else◌, last?, keep, count_if,
}
use teslamate_watchdog.Shared.Text.{fstring, str}
use teslamate_watchdog.Shared.Json.{Json, Items, Fields, get}
use teslamate_watchdog.Config.{Config}
use teslamate_watchdog.StateMachine.{State}
use teslamate_watchdog.StateMachine.States.{
  value, is_in, restart_needs_tesla_auth, restart_allowed_for_state,
}

-- seconds, in microseconds
abbrev pub seconds : ℕ → ℕ
seconds n = n * 1000000

abbrev pub seconds_per_day : ℕ
seconds_per_day = 86400

abbrev pub database_confirmation_count : ℕ
database_confirmation_count = 2

abbrev pub history_retention_seconds : ℕ
history_retention_seconds = 604800

pub record RestartRecord : Type 0 where
  pub at : ℕ
  pub state : String
  pub reason : String

pub record Decision : Type 0 where
  pub allowed : Bool
  pub reason : String

-- what reading the history file gives
pub data HistoryFile : Type 0 where
  not_found : HistoryFile
  unreadable : HistoryFile
  parsed : Json → HistoryFile

-- The history in memory, and the file on the data volume.
pub record Manager : Type 0 where
  pub history : List RestartRecord
  pub file : HistoryFile

-- `RestartRecord.as_dict`; `isoformat` prints a time.
abbrev pub record_as_dict : (ℕ → String) → RestartRecord → Json
record_as_dict isoformat r = Json.obj (
    Fields.field "at" (Json.num r.at) (
      Fields.field "iso" (Json.text (isoformat r.at)) (
        Fields.field "state" (Json.text r.state)
          (Fields.field "reason" (Json.text r.reason) Fields.end))))

abbrev pub records_as_dicts : (ℕ → String) → List RestartRecord → Items
records_as_dicts isoformat [] = Items.nil
records_as_dicts isoformat (r ∷ rs) =
    Items.cons (record_as_dict isoformat r) (records_as_dicts isoformat rs)

-- The payload of `_save`.
abbrev pub payload : (ℕ → String) → List RestartRecord → Json
payload isoformat history =
    Json.obj (Fields.field "restarts" (Json.arr (records_as_dicts isoformat history)) Fields.end)

-- `_save`: the new file replaces the old one whole, or an `OSError` leaves the old one.
unfoldable pub save : (ℕ → String) → Bool → Manager → Manager
save isoformat writable m =
    if writable then record m { file = HistoryFile.parsed (payload isoformat m.history) } else m

-- `_prune`: `record.at >= now - HISTORY_RETENTION_SECONDS`
unfoldable pub prune : ℕ → Manager → Manager
prune now m = record m {
  history = keep (λ r. leb now (r.at + seconds history_retention_seconds)) m.history;
}

-- `record.at >= now - SECONDS_PER_DAY`
abbrev pub is_recent : ℕ → RestartRecord → Bool
is_recent now r = leb now (r.at + seconds seconds_per_day)

unfoldable pub restarts_in_24h : ℕ → Manager → ℕ
restarts_in_24h now m = count_if (is_recent now) m.history

unfoldable pub last_restart : Manager → Option RestartRecord
last_restart m = last? m.history

unfoldable pub last_restart_iso : (ℕ → String) → Manager → Option String
unfolding last_restart
last_restart_iso isoformat m = elim (last_restart m) [
  | none ↦ none
  | some r ↦ some (isoformat r.at)
]

-- `max(0.0, cooldown - (now - record.at))`, in microseconds: `-` on naturals stops at 0.
unfoldable pub seconds_until_cooldown_expires : Config → ℕ → Manager → ℕ
seconds_until_cooldown_expires c now m = elim (last_restart m) [
  | none ↦ 0
  | some r ↦ seconds c.restart_cooldown_seconds + r.at - now
]

-- `Decision(False, reason)`
abbrev pub refuse : String → Decision
refuse reason = record { allowed = false; reason = reason }

-- The part of the guard that a logout has to pass first: why it is refused, if it is.
unfoldable pub auth_refusal : Config → State → Option Bool → Option String
auth_refusal c s reachable =
    if not (is_in s restart_needs_tesla_auth)
    then none
    else if not c.logged_out_restart_enabled
    then some "LOGGED_OUT_RESTART_ENABLED is false"
    else if not (is_true reachable)
    then some (
        fstring (
          c.tesla_auth_host
          ∷ " is not reachable — a restart cannot re-authenticate until the network recovers" ∷ []))
    else none

-- The part of the guard on the database, the cooldown and the daily cap.
unfoldable pub evaluate_budget : Config → State → ℕ → ℕ → Manager → Decision
evaluate_budget c s streak now m =
    let remaining = seconds_until_cooldown_expires c now m in
    let recent = restarts_in_24h now m in
    if ltb streak database_confirmation_count
    then refuse (
        fstring (
          "database not confirmed healthy ("
          ∷ str streak
          ∷ "/"
          ∷ str database_confirmation_count
          ∷ " consecutive checks)"
          ∷ []))
    else if ltb 0 remaining
    then refuse (fstring ("cooldown active for another " ∷ str (remaining / 1000000) ∷ "s" ∷ []))
    else if leb c.max_restarts_per_24_hours recent
    then refuse (
        fstring (
          "daily cap reached ("
          ∷ str recent
          ∷ "/"
          ∷ str c.max_restarts_per_24_hours
          ∷ " restarts in 24h)"
          ∷ []))
    else record {
      allowed = true;
      reason = fstring (value s ∷ " is restartable and all guards pass" ∷ []);
    }

-- `RestartManager.evaluate`
unfoldable pub evaluate : Config → State → ℕ → Option Bool → ℕ → Manager → Decision
evaluate c s streak reachable now m =
    if not c.auto_restart_enabled
    then refuse "AUTO_RESTART_ENABLED is false"
    else if not (restart_allowed_for_state s)
    then refuse (fstring (value s ∷ " is not a restartable state — a restart cannot fix it" ∷ []))
    else elim (auth_refusal c s reachable) [
      | some reason ↦ refuse reason
      | none ↦ evaluate_budget c s streak now m
    ]

-- `RestartManager.record`
unfoldable pub record_restart : (ℕ → String) → Bool → State → String → ℕ → Manager → Manager
record_restart isoformat writable s reason now m =
    let made : RestartRecord = record { at = now; state = value s; reason = reason } in
    save isoformat writable (prune now (record m { history = m.history ++ made ∷ [] }))
