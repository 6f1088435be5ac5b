-- ===== src/Examples/Cycles.antt =====
-- Cycles of the watchdog of src/main.py: TeslaMate runs, then its container stops and the watchdog
-- restarts it; and a logout that goes on.
use teslamate_watchdog.Shared.{
  [], List, map, All, length, String, ◌++◌, ℕ, ◌≡◌, refl, false, some, ◌∷◌,
}
use teslamate_watchdog.HttpCheck
use teslamate_watchdog.HttpCheck.{end, got}
use teslamate_watchdog.StateMachine
use teslamate_watchdog.DockerClient
use teslamate_watchdog.StateMachine.{logged_out, teslamate_unreachable}
use teslamate_watchdog.DockerClient.{
  get_json, is_named, resolve_from, resolve, to_ref, to_status, status,
}
use teslamate_watchdog.DockerClient.Database.{check_database, running_database}
use teslamate_watchdog.MqttClient.{new_mqtt}
use teslamate_watchdog.Recovery.{active}
use teslamate_watchdog.Watchdog.{
  Watchdog, Cycle, observe, publish_status, react, run, build_watchdog,
}
use teslamate_watchdog.Watchdog.Safety.{attempt, Effects, react-Effects}
use teslamate_watchdog.MqttClient.Retained.{state_message}
use teslamate_watchdog.Watchdog.Topics.{IsSaid, publish_status-keeps}
use teslamate_watchdog.Watchdog.Retry.{run-Persists}
use teslamate_watchdog.Examples.Data.{good, config, python, is_sign_in, stopped, proxy}
use teslamate_watchdog.Examples.World.{
  classifier, cycle_at, first_cycle, second_cycle, new_manager, at_first, ready_watchdog,
}

react-Effects_example :
    Effects python is_sign_in classifier config second_cycle
      (attempt python is_sign_in classifier config second_cycle stopped ready_watchdog)
      ready_watchdog
      (react python is_sign_in classifier config second_cycle stopped ready_watchdog)
unfolding build_watchdog
react-Effects_example =
    react-Effects python is_sign_in classifier config second_cycle stopped ready_watchdog refl

-- A logout that is confirmed already goes on; Tesla's host can be reached.
abbrev logout_cycle : ℕ → Cycle
logout_cycle t = record (cycle_at t proxy proxy) {
  http = got (record { status_code = 302; location = some "/sign_in"; body = end });
}

abbrev logged_out_watchdog : Watchdog
logged_out_watchdog = record ready_watchdog {
  world = record (build_watchdog new_manager new_mqtt).world {
    machine = StateMachine.new_machine logged_out;
  };
}

run-Persists_example :
    let d =
      run python is_sign_in classifier config logged_out_watchdog
        (logout_cycle 2060 ∷ logout_cycle 2000 ∷ []) in
    (d.world.posted ≡ logged_out_watchdog.world.posted)
    × (d.world.restarts ≡ new_manager)
    × (active d.world ≡ false)
    × (d.world.machine.state ≡ logged_out)
unfolding build_watchdog StateMachine.new_machine StateMachine.evaluate observe HttpCheck.check
    HttpCheck.classify get_json is_named resolve_from resolve to_ref to_status status check_database
    running_database
run-Persists_example =
    run-Persists python is_sign_in classifier config logged_out logged_out_watchdog
      (logout_cycle 2060 ∷ logout_cycle 2000 ∷ []) refl refl (refl, (refl, tt))

publish_status-keeps_example :
    (said : List (String × String)) × ((publish_status python is_sign_in classifier config
        first_cycle good at_first).mqtt.published
      ≡ at_first.mqtt.published ++ map (state_message config) said)
    × All (IsSaid python is_sign_in classifier config) said
    × (length said ≡ 11)
publish_status-keeps_example =
    publish_status-keeps python is_sign_in classifier config first_cycle good at_first (λ t e. cc e)
      (λ e. cc e)
