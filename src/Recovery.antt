-- ===== src/Recovery.antt =====
-- src/recovery.py: the restart sequence, over the objects that the controller shares with the
-- watchdog: the state machine, the restart manager and the channel for events.
pub mod Raising
pub mod Bundled
pub mod Held
pub mod Outcome
pub mod Ending
use teslamate_watchdog.Shared.{
  ℕ, suc, ◌+◌, String, Bool, true, false, not, ◌||◌, Option, none, some, List, [], ◌∷◌, ◌++◌, ltb,
  leb, is_some, if◌then◌else◌,
}
use teslamate_watchdog.Shared.Text.{fstring}
use teslamate_watchdog.Config.{Config}
use teslamate_watchdog.StateMachine.{
  State, healthy, logger_unhealthy, teslamate_unreachable, recovering, manual_intervention_required,
  Observation, Machine, evaluate, force_state,
}
use teslamate_watchdog.StateMachine.States.{is}
use teslamate_watchdog.RestartManager.{
  Manager, seconds, restarts_in_24h, last_restart_iso, record_restart,
}
use teslamate_watchdog.DockerClient.{Proxy, Restarted, restart}
use teslamate_watchdog.DockerClient.Logs.{logs}
use teslamate_watchdog.Python.{Python}
use teslamate_watchdog.Events.{Event, Incident, Bundle}

pub data Status : Type 0 where
  idle waiting_after_restart confirming_recovery recovered manual_required : Status

-- `STATUS_IDLE` and the others
abbrev pub status_value : Status → String
status_value idle = "idle"
status_value waiting_after_restart = "waiting_after_restart"
status_value confirming_recovery = "confirming_recovery"
status_value recovered = "recovered"
status_value manual_required = "manual_intervention_required"

-- `_Progress`; the deadline is a monotonic time.
pub record Progress : Type 0 where
  pub trigger_state : State
  pub reason : String
  pub deadline : ℕ
  pub healthy_streak : ℕ
  pub failure_streak : ℕ

-- The objects that one cycle works on: the machine, the manager, `_progress` and `status` of the
-- controller; and what left the program: events in order, incident bundles, and the containers that
-- Docker was asked to restart.
pub record World : Type 0 where
  pub machine : Machine
  pub restarts : Manager
  pub progress : Option Progress
  pub status : Status
  pub events : List Event
  pub bundles : List Bundle
  pub posted : List String

-- The clock at the places of one cycle that read it: wall-clock time where the guard is asked, where
-- diagnostics are captured, where a restart is recorded and where one is counted for an event or a
-- topic; and the monotonic time.
pub record Times : Type 0 where
  pub guard : ℕ
  pub captured : ℕ
  pub recorded : ℕ
  pub counted : ℕ
  pub monotonic : ℕ

-- What the world outside answers to the controller in one cycle: the proxy that `capture` asks for
-- logs, the incident that the writer of bundles returns, the proxy that the restart meets,
-- and whether the history can be written.
pub record Outside : Type 0 where
  pub times : Times
  pub logs_proxy : Proxy
  pub incident : Option Incident
  pub proxy : Proxy
  pub writable : Bool

-- `self._publish_event(…)`
abbrev pub publish : Event → World → World
publish e w = record w { events = w.events ++ e ∷ [] }

-- `RecoveryController.active`
abbrev pub active : World → Bool
active w = is_some w.progress

-- `self._machine.force_state(state, reason)`
abbrev force : State → String → World → World
force s reason w = record w { machine = (force_state s reason w.machine).0 }

-- `restart_attempted` of the summary
unfoldable pub attempted : State → Bool
attempted s = is s logger_unhealthy || is s teslamate_unreachable

module _ (py : Python) (c : Config) (env : Outside) where
  -- `_safe_logs`: no call of `logs` raises
  unfoldable pub safe_logs : String → String
  safe_logs container =
      logs py.decode env.logs_proxy env.times.captured container c.diagnostic_log_lookback_seconds

  -- what `capture` hands to the writer
  unfoldable pub bundle : State → String → Observation → World → Bundle
  unfolding attempted
  bundle s reason o w = record {
    state = s;
    reason = reason;
    observation = o;
    restart_count_24h = restarts_in_24h env.times.captured w.restarts;
    last_restart = last_restart_iso py.isoformat w.restarts;
    restart_attempted = attempted s;
    teslamate_log = safe_logs c.teslamate_container;
    database_log = safe_logs c.database_container;
  }

  -- `RecoveryController.capture`
  unfoldable pub capture : State → String → Observation → World → World
  capture s reason o w =
      let written = record w { bundles = w.bundles ++ bundle s reason o w ∷ [] } in
      elim env.incident [
        | none ↦ written
        | some incident ↦ publish (Event.diagnostics_captured s reason incident) written
      ]

  -- `begin` after a restart that was not done
  unfoldable pub begin_failed : String → World → World
  begin_failed detail w =
      let why = fstring ("restart failed: " ∷ detail ∷ []) in
      publish
        (Event.manual_intervention_required none why
          "The watchdog could not restart TeslaMate. Check the socket proxy grants and the container name."
          none)
        (force manual_intervention_required why (record w { status = manual_required }))

  -- `begin` after a restart that was done
  unfoldable pub begin_waiting : State → String → World → World
  begin_waiting s reason w =
      force recovering (fstring ("restart issued: " ∷ reason ∷ [])) (record w {
        restarts = record_restart py.isoformat env.writable s reason env.times.recorded w.restarts;
        progress = some (record {
          trigger_state = s;
          reason = reason;
          deadline = env.times.monotonic + seconds c.post_restart_wait_seconds;
          healthy_streak = 0;
          failure_streak = 0;
        });
        status = waiting_after_restart;
      })

  -- `RecoveryController.begin`
  unfoldable pub begin : State → String → World → World × Bool
  begin s reason w =
      let started =
        publish (Event.recovery_started s reason c.teslamate_container c.post_restart_wait_seconds)
          w in
      let r = restart c env.proxy c.teslamate_container in
      let executed =
        publish (Event.restart_executed s r.succeeded r.detail c.teslamate_container)
          (record started { posted = w.posted ++ r.posted }) in
      if r.succeeded
      then (begin_waiting s reason executed, true)
      else (begin_failed r.detail executed, false)

  -- `_finish_recovered`
  unfoldable pub finish_recovered : Progress → World → World
  finish_recovered p w =
      publish
        (Event.recovered p.trigger_state p.reason (restarts_in_24h env.times.counted w.restarts))
        (force healthy "recovered after restart" (record w { progress = none; status = recovered }))

  -- `_finish_manual`
  unfoldable pub finish_manual : Progress → String → World → World
  finish_manual p detail w =
      let why = fstring ("still failing after restart: " ∷ detail ∷ []) in
      publish
        (Event.manual_intervention_required (some p.trigger_state) why
          "TeslaMate was restarted but is still unhealthy. Check the container logs and the diagnostics bundle."
          (some (restarts_in_24h env.times.counted w.restarts)))
        (force manual_intervention_required why
          (record w { progress = none; status = manual_required }))

  -- `step`, once the wait is over
  unfoldable pub confirm : Progress → Observation → World → World
  unfolding finish_recovered finish_manual
  confirm p o w =
      let result = evaluate o in
      let good = record p { healthy_streak = suc p.healthy_streak; failure_streak = 0 } in
      let bad = record p { failure_streak = suc p.failure_streak; healthy_streak = 0 } in
      if result.inconclusive
      then w
      else if is result.state healthy
      then (if leb c.recovery_confirmation_count good.healthy_streak
          then finish_recovered good (record w { progress = some good })
          else record w { progress = some good })
      else if leb c.failure_confirmation_count bad.failure_streak
      then finish_manual bad result.reason (record w { progress = some bad })
      else record w { progress = some bad }

  -- `RecoveryController.step`
  unfoldable pub step : Observation → World → World
  unfolding confirm
  step o w = elim w.progress [
    | none ↦ w
    | some p ↦
        if ltb env.times.monotonic p.deadline
        then record w { status = waiting_after_restart }
        else confirm p o (record w { status = confirming_recovery })
  ]
