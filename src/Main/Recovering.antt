-- ===== src/Main/Recovering.antt =====
-- The machine is held while a recovery is in progress, over the whole of `main`.
use teslamate_watchdog.Shared.{Option, none, some, String, Bool, List, [], ◌∷◌}
use teslamate_watchdog.Python.{Python}
use teslamate_watchdog.Config.{Config}
use teslamate_watchdog.RestartManager.{Manager}
use teslamate_watchdog.MqttClient.{new_mqtt}
use teslamate_watchdog.LogClassifier.{Classifier}
use teslamate_watchdog.Recovery.Held.{IsHeld}
use teslamate_watchdog.Watchdog.{Watchdog, Cycle, run, build_watchdog}
use teslamate_watchdog.Watchdog.Held.{run-IsHeld}
use teslamate_watchdog.Watchdog.Raising.{react}
use teslamate_watchdog.Watchdog.Raising.Held.{react-IsHeld}
use teslamate_watchdog.StateMachine.{Observation}
use teslamate_watchdog.Main.World.{world-try_status, world-try_observe}
use teslamate_watchdog.Main.Attempt.{Trouble, try_observe, interrupted, try_rest, attempt}
use teslamate_watchdog.Main.{Callback, Step, calls, advance, serve}

module _ (py : Python) (c : Config) (search : String → Bool) (k : Classifier) where
  try_rest-IsHeld :
      (t : Trouble) (env : Cycle) (d : Watchdog) (observed : Option Observation)
      → IsHeld d.world
      → IsHeld (try_rest py search k c t env d observed).world
  unfolding try_rest
  try_rest-IsHeld t env d none h = h
  try_rest-IsHeld t env d (some o) h =
      let (after, done) = react t.event_raises py search k c env o d in
      rw (world-try_status py c search k t env o (interrupted py search k c t after) done)
        (react-IsHeld t.event_raises py search k c env o d h)

  attempt-IsHeld :
      (t : Trouble) (env : Cycle) (d : Watchdog)
      → IsHeld d.world
      → IsHeld (attempt py search k c t env d).world
  unfolding attempt
  attempt-IsHeld t env d h =
      let (seen, observed) = try_observe py search k c t env d in
      try_rest-IsHeld t env seen observed (rw (world-try_observe py c search k t env d) h)

  advance-IsHeld :
      (s : Step) (d : Watchdog) → IsHeld d.world → IsHeld (advance py c search k s d).world
  unfolding advance
  advance-IsHeld (Step.cycle env t) d h = attempt-IsHeld t env d h
  advance-IsHeld (Step.callback x) d h = h

  serve-keeps :
      (steps : List Step) (d : Watchdog)
      → IsHeld d.world
      → IsHeld (serve py c search k steps d).world
  unfolding serve
  serve-keeps [] d h = h
  serve-keeps (s ∷ past) d h = advance-IsHeld s (serve py c search k past d) (serve-keeps past d h)

  -- While main serves, after any cycles, whatever raises an exception in them, and any calls of
  -- the MQTT client in or between them: the state machine stands at RECOVERING exactly while a
  -- recovery is in progress, and the status that the controller keeps in memory is one of a
  -- recovery in progress exactly then.
  pub serve-IsHeld :
      (restarts : Manager) (early : List Callback) (steps : List Step)
      → IsHeld
          (serve py c search k steps (build_watchdog restarts (calls py c early new_mqtt))).world
  unfolding run
  serve-IsHeld restarts early steps =
      serve-keeps steps (build_watchdog restarts (calls py c early new_mqtt))
        (run-IsHeld py search k c restarts (calls py c early new_mqtt) [])
