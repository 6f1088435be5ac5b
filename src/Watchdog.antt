-- ===== src/Watchdog.antt =====
-- src/main.py: one cycle of the watchdog that `build_watchdog` makes, with all its collaborators.
mod Data
pub mod Safety
pub mod Raising
pub mod Held
pub mod Retry
pub mod Announce
pub mod Topics
pub mod Snapshot
unfoldable pub use Data.*
use teslamate_watchdog.Shared.{
  ℕ, suc, String, Bool, true, false, not, ◌&&◌, Option, none, some, List, [], ◌∷◌, ◌++◌, str_eq,
  is_true, or_default, if◌then◌else◌,
}
use teslamate_watchdog.Shared.Text.{fstring, str}
use teslamate_watchdog.Python.{Python}
use teslamate_watchdog.Config.{Config}
use teslamate_watchdog.HttpCheck.{HttpCategory, Got, check}
use teslamate_watchdog.StateMachine
use teslamate_watchdog.StateMachine.{
  State, starting, healthy, database_unhealthy, LogSignals, Observation, Transition, new_machine,
}
use teslamate_watchdog.StateMachine.States.{
  value, is, is_in, restart_allowed_for_state, restart_needs_tesla_auth, failure_states,
  auth_states,
}
use teslamate_watchdog.RestartManager
use teslamate_watchdog.RestartManager.{Manager, Decision, restarts_in_24h, last_restart_iso}
use teslamate_watchdog.DockerClient.{Proxy, status}
use teslamate_watchdog.DockerClient.Database.{check_database, tcp_probe}
use teslamate_watchdog.DockerClient.Logs.{logs}
use teslamate_watchdog.MqttClient.{Mqtt, LoggerHealth, logger_health, publish_state}
use teslamate_watchdog.LogClassifier.{Classifier, is_empty, classify, signals}
use teslamate_watchdog.Events.{Event, Failure}
use teslamate_watchdog.Recovery
use teslamate_watchdog.Recovery.{World, Outside, status_value, publish, active, capture, begin}

-- `_database_healthy_streak`, after a verdict
abbrev pub next_streak : Option Bool → ℕ → ℕ
next_streak verdict streak = if is_true verdict then suc streak else 0

-- `search` is the configured pattern of the sign-in path, compiled; `k` the classifier of log lines.
module _ (py : Python) (search : String → Bool) (k : Classifier) (c : Config) where
  -- the log signals of `_observe`
  unfoldable pub log_signals : Cycle → Option LogSignals
  log_signals env =
      let text =
        logs py.decode env.logs_proxy env.logs_at c.teslamate_container
          c.log_analysis_lookback_seconds in
      if is_empty k
      then none
      else if str_eq text ""
      then none
      else some (signals k (classify py.words py.lines k text))

  -- `_observe`
  unfoldable pub observe : Cycle → Watchdog → Watchdog × Observation
  unfolding log_signals
  observe env d =
      let http =
        check py.lower py.decode search c.signin_body_markers env.elapsed_ms env.checked_at
          env.http in
      let (mqtt, logger) = logger_health py.lower c env.read_at d.mqtt in
      let st = status env.status_proxy c.teslamate_container in
      let database = check_database c env.database_proxy env.database_connection in
      (
        record d {
          mqtt = mqtt;
          database_healthy_streak = next_streak database.healthy d.database_healthy_streak;
        },
        record {
          http = http;
          logger_healthy = logger.healthy;
          logger_stale = logger.stale;
          logger_detail = logger.detail;
          database_healthy = database.healthy;
          teslamate_container_running = if st.exists then st.running else none;
          log_signals = log_signals env;
        },
      )

  -- the probe of Tesla's host in `_consider_recovery`
  unfoldable pub probe_auth : Cycle → State → Option Bool
  probe_auth env s =
      if is_in s restart_needs_tesla_auth
      then some (tcp_probe c.tesla_auth_host c.tesla_auth_port env.auth_connection).0
      else none

  -- `self._restarts.evaluate(…)` in `_consider_recovery`
  unfoldable pub decide : Cycle → State → ℕ → Manager → Decision
  unfolding probe_auth
  decide env s streak m =
      RestartManager.evaluate c s streak (probe_auth env s) env.outside.times.guard m

  -- `_consider_recovery`
  unfoldable pub consider_recovery : Cycle → State → String → Observation → ℕ → World → World × Bool
  consider_recovery env s reason o streak w =
      let captured = capture py c env.outside s reason o w in
      if not (restart_allowed_for_state s)
      then (captured, false)
      else if not (decide env s streak w.restarts).allowed
      then (captured, false)
      else begin py c env.outside s reason captured

  -- the event for the human, if there is one, at the end of `_on_transition`
  unfoldable pub announce : State → Bool → Failure → World → World
  announce s restarting base w =
      if is_in s auth_states && not restarting
      then publish (Event.authentication_required base auth_action_message c.teslamate_url) w
      else if is s database_unhealthy
      then publish
          (Event.database_unhealthy base
            "Check the TeslaMate PostgreSQL container. The watchdog never restarts the database.")
          w
      else w

  -- `_on_transition`
  unfoldable pub on_transition : Cycle → Transition → Observation → Watchdog → Watchdog
  unfolding announce
  on_transition env t o d =
      let base : Failure = record {
        state = t.current;
        previous_state = t.previous;
        reason = t.reason;
        observation = o;
      } in
      let (w, restarting) =
        consider_recovery env t.current t.reason o d.database_healthy_streak
          (publish (Event.failure_detected base) d.world) in
      if not (is_in t.current failure_states)
      then d
      else record d { last_failure = env.failure_iso; world = announce t.current restarting base w }

  -- what `_publish_status` reports on the session
  unfoldable pub session : HttpCategory → Option Bool
  session HttpCategory.authenticated = some true
  session HttpCategory.logged_out = some false
  session _ = none

  unfoldable pub status_values : Cycle → Observation → Watchdog → List (String × String)
  unfolding session tristate
  status_values env o d =
      ("state", value d.world.machine.state)
      ∷ ("healthy", (if is d.world.machine.state healthy then "true" else "false"))
      ∷ ("http_status", elim o.http.status_code [ none ↦ "unknown" | some n ↦ str n ])
      ∷ ("authenticated", tristate (session o.http.category))
      ∷ ("database_healthy", tristate o.database_healthy)
      ∷ ("logger_healthy", tristate o.logger_healthy)
      ∷ ("last_check", env.check_iso)
      ∷ ("last_failure", (if str_eq d.last_failure "" then payload_unset else d.last_failure))
      ∷ ("last_restart", or_default (last_restart_iso py.isoformat d.world.restarts) payload_unset)
      ∷ ("restart_count_24h", str (restarts_in_24h env.outside.times.counted d.world.restarts))
      ∷ ("recovery_status", status_value d.world.status)
      ∷ []

  unfoldable pub publish_all : List (String × String) → Mqtt → Mqtt
  publish_all [] m = m
  publish_all ((suffix, payload) ∷ rest) m = publish_all rest (publish_state c suffix payload m)

  -- `_publish_status`
  unfoldable pub publish_status : Cycle → Observation → Watchdog → Watchdog
  unfolding status_values publish_all
  publish_status env o d = record d { mqtt = publish_all (status_values env o d) d.mqtt }

  -- The middle of `check_once`: recovery has the observation, or else the state machine.
  unfoldable pub react : Cycle → Observation → Watchdog → Watchdog
  react env o d =
      let (machine, transition) = StateMachine.step c o d.world.machine in
      let stepped = record d { world = record d.world { machine = machine } } in
      if active d.world
      then record d { world = Recovery.step py c env.outside o d.world }
      else elim transition [ none ↦ stepped | some t ↦ on_transition env t o stepped ]

  -- `check_once`
  unfoldable pub check_once : Cycle → Watchdog → Watchdog
  check_once env d = let (seen, o) = observe env d in publish_status env o (react env o seen)

  -- The cycles of `run`, the latest first.
  unfoldable pub run : Watchdog → List Cycle → Watchdog
  run d [] = d
  run d (env ∷ past) = check_once env (run d past)

-- The watchdog that `build_watchdog` makes, on the history that its manager has loaded and the MQTT
-- client that it is given.
unfoldable pub build_watchdog : Manager → Mqtt → Watchdog
build_watchdog restarts mqtt = record {
  world = record {
    machine = new_machine starting;
    restarts = restarts;
    progress = none;
    status = Recovery.idle;
    events = [];
    bundles = [];
    posted = [];
  };
  mqtt = mqtt;
  last_failure = "";
  database_healthy_streak = 0;
}
