-- ===== src/Examples/Restarts.antt =====
-- The guard and the history of src/restart_manager.py, on a history of two restarts.
use teslamate_watchdog.Shared.{[], ◌≡◌, refl, ◌↔◌, true, false, none, some, ◌∷◌, arith}
use teslamate_watchdog.StateMachine.{logged_out, logger_unhealthy, teslamate_unreachable}
use teslamate_watchdog.StateMachine.States.{is, restart_allowed_for_state}
use teslamate_watchdog.RestartManager.{
  seconds, HistoryFile, Manager, evaluate, evaluate_budget, auth_refusal, restarts_in_24h,
  last_restart, seconds_until_cooldown_expires, record_restart, prune, save,
}
use teslamate_watchdog.RestartManager.Persistence.{recreate, recreate-save}
use teslamate_watchdog.RestartManager.Guard.{
  MayRestart, evaluate-MayRestart, record_restart-evaluate,
}
use teslamate_watchdog.RestartManager.Limits.{Trace, fresh, restart, recreated}
use teslamate_watchdog.Examples.Data.{config, python, no_float, as_text}

abbrev empty : Manager
empty = record { history = []; file = HistoryFile.not_found }

abbrev once : Manager
once = record_restart python.isoformat true teslamate_unreachable "down" (seconds 1000000) empty

abbrev twice : Manager
twice = record_restart python.isoformat true logged_out "sign-in page" (seconds 1002000) once

evaluate-once :
    ((evaluate config logged_out 2 (some true) (seconds 1001000) once).allowed ≡ false)
    × ((evaluate config logged_out 2 (some true) (seconds 1001800) once).allowed ≡ true)
    × ((evaluate config logged_out 2 (some false) (seconds 1001800) once).allowed ≡ false)
unfolding evaluate evaluate_budget auth_refusal restart_allowed_for_state is restarts_in_24h
    last_restart seconds_until_cooldown_expires record_restart prune save
evaluate-once = (refl, refl, refl)

evaluate-MayRestart_example :
    ((evaluate config logger_unhealthy 2 none (seconds 1001800) once).allowed ≡ true)
    ↔ MayRestart config logger_unhealthy 2 none (seconds 1001800) once
evaluate-MayRestart_example =
    evaluate-MayRestart config logger_unhealthy 2 none (seconds 1001800) once

record_restart-evaluate_example :
    (evaluate config logged_out 5 (some true) (seconds 1001799) once).allowed ≡ false
record_restart-evaluate_example =
    record_restart-evaluate python.isoformat teslamate_unreachable "down" (seconds 1000000) empty
      config true logged_out 5 (some true) (seconds 1001799) (omega arith)

recreate-save_example :
    recreate no_float as_text (save python.isoformat true twice)
    ≡ some (save python.isoformat true twice)
unfolding record_restart prune save
recreate-save_example =
    recreate-save no_float as_text python.isoformat twice ((omega arith, tt), (tt, tt))

-- Two restarts, with the container created anew in between.
twice-Trace :
    Trace no_float as_text python.isoformat config (seconds 1002000 ∷ seconds 1000000 ∷ []) twice
unfolding evaluate evaluate_budget auth_refusal restart_allowed_for_state is restarts_in_24h
    last_restart seconds_until_cooldown_expires record_restart prune save recreate
twice-Trace =
    restart
      (recreated
        (restart fresh teslamate_unreachable 2 none "down" (seconds 1000000) (seconds 1000000)
          (omega arith) (omega arith) refl)
        (recreate-save no_float as_text python.isoformat once (tt, tt)))
      logged_out 2 (some true) "sign-in page" (seconds 1002000) (seconds 1002000) (omega arith)
      (omega arith) refl
