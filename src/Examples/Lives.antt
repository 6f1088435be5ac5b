-- ===== src/Examples/Lives.antt =====
-- A life of the watchdog: a cycle whose status is cut short, with the client called in its middle,
-- and then one in which the container has stopped and is restarted, with no text for the human.
use teslamate_watchdog.Shared.{
  [], ◌≤◌, ◌≡◌, refl, Bool, true, false, List, ◌∷◌, arith, count_if, str_eq,
}
use teslamate_watchdog.HttpCheck
use teslamate_watchdog.MqttClient
use teslamate_watchdog.MqttClient.{new_mqtt}
use teslamate_watchdog.StateMachine
use teslamate_watchdog.StateMachine.States.{is, restart_allowed_for_state}
use teslamate_watchdog.RestartManager
use teslamate_watchdog.RestartManager.{seconds}
use teslamate_watchdog.RestartManager.Limits.{Spaced, in_window}
use teslamate_watchdog.DockerClient
use teslamate_watchdog.DockerClient.{
  matches, get_json, is_named, resolve_from, resolve, restart_ref, post_result, to_ref, to_status,
  status,
}
use teslamate_watchdog.DockerClient.Database.{check_database, running_database}
use teslamate_watchdog.LogClassifier.{is_empty, new_classifier}
use teslamate_watchdog.Events.{Event}
use teslamate_watchdog.Recovery.{begin_waiting}
use teslamate_watchdog.Recovery.Raising.{
  say, tell_bundle, ◌>>=◌, modify, pure, branch, capture, begin, after_restart, begin_failed,
}
use teslamate_watchdog.Watchdog
use teslamate_watchdog.Watchdog.{
  Watchdog, Cycle, log_signals, observe, probe_auth, decide, build_watchdog,
}
use teslamate_watchdog.Watchdog.Raising.{
  restart_if, consider_recovery, announce, handle_failure, on_transition, react,
}
use teslamate_watchdog.Main.{Callback, call, calls}
use teslamate_watchdog.Main.Attempt.{
  Trouble, try_observe, try_publish, try_status, try_rest, attempt,
}
use teslamate_watchdog.Main.Calm.{calm}
use teslamate_watchdog.Main.Budget.{
  Life, built, cycle, log_after, restarted, Life-daily_cap, Life-Spaced,
}
use teslamate_watchdog.Examples.Data.{config, python, is_sign_in, no_float, as_text}
use teslamate_watchdog.Examples.World.{classifier, first_cycle, second_cycle, at_first}

abbrev is_for_human : List Event → Event → Bool
is_for_human past (Event.authentication_required base action url) = true
is_for_human past (Event.database_unhealthy base action) = true
is_for_human past e = false

abbrev cut_short : Trouble
cut_short = record calm {
  event_raises = is_for_human;
  status_raises = λ suffix. str_eq suffix "last_check";
  meanwhile = Callback.disconnected ∷ [];
}

abbrev tried : Cycle → Watchdog → Watchdog
tried env d = attempt python is_sign_in classifier config cut_short env d

abbrev after_first : Watchdog
after_first = tried first_cycle at_first

abbrev after_second : Watchdog
after_second = tried second_cycle after_first

abbrev restarted_in : Cycle → Watchdog → Bool
restarted_in env d =
    restarted python is_sign_in classifier config no_float as_text env d.world (tried env d).world

restarted-second :
    (restarted_in first_cycle at_first ≡ false) × (restarted_in second_cycle after_first ≡ true)
unfolding attempt try_observe try_publish try_status try_rest react calls call on_transition
    handle_failure announce consider_recovery restart_if say tell_bundle ◌>>=◌ modify pure branch
    capture begin after_restart begin_failed observe Watchdog.status_values build_watchdog decide
    StateMachine.step StateMachine.evaluate StateMachine.observe_healthy
    StateMachine.observe_failure StateMachine.new_machine StateMachine.required is
    restart_allowed_for_state RestartManager.evaluate RestartManager.evaluate_budget
    RestartManager.auth_refusal RestartManager.seconds_until_cooldown_expires
    RestartManager.restarts_in_24h RestartManager.last_restart DockerClient.restart restart_ref
    matches get_json is_named resolve_from resolve to_ref post_result to_status status
    check_database running_database MqttClient.logger_health HttpCheck.check HttpCheck.classify
    HttpCheck.classify_body HttpCheck.find_signin_marker HttpCheck.read_chunks new_classifier
    log_signals probe_auth is_empty begin_waiting
restarted-second = (refl, refl)

-- TeslaMate is restarted once, in the second cycle.
two_cycles :
    Life python is_sign_in classifier config no_float as_text (seconds 1065 ∷ []) after_second
two_cycles =
    let one : Life python is_sign_in classifier config no_float as_text
        (log_after python is_sign_in classifier config no_float as_text first_cycle at_first.world
          after_first.world [])
        after_first =
      cycle (built new_mqtt) first_cycle cut_short (λ past s succeeded detail name. refl)
        (omega arith) (omega arith) refl in
    let two : Life python is_sign_in classifier config no_float as_text
        (log_after python is_sign_in classifier config no_float as_text second_cycle
          after_first.world after_second.world [])
        after_second =
      cycle (rw restarted-second.0 at one) second_cycle cut_short
        (λ past s succeeded detail name. refl) (omega arith) (omega arith) refl in
    rw restarted-second.1 at two

Life-daily_cap_example : count_if (in_window (seconds 1000)) (seconds 1065 ∷ []) ≤ 2
Life-daily_cap_example =
    Life-daily_cap python is_sign_in classifier config no_float as_text two_cycles (seconds 1000)

Life-Spaced_example : Spaced (seconds 1800) (seconds 1065 ∷ [])
Life-Spaced_example = Life-Spaced python is_sign_in classifier config no_float as_text two_cycles
