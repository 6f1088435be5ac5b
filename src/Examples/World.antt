-- ===== src/Examples/World.antt =====
-- Watchdogs of src/main.py, and cycles in which TeslaMate runs and then its container stops.
use teslamate_watchdog.Shared.{[], ℕ, ◌+◌, true, false, none, some, ◌∷◌}
use teslamate_watchdog.HttpCheck.{chunk, end, got}
use teslamate_watchdog.StateMachine
use teslamate_watchdog.StateMachine.{starting, healthy, teslamate_unreachable, Transition}
use teslamate_watchdog.RestartManager.{seconds, HistoryFile, Manager}
use teslamate_watchdog.DockerClient.{Proxy, responded}
use teslamate_watchdog.MqttClient.{new_mqtt}
use teslamate_watchdog.LogClassifier.{Classifier, new_classifier}
use teslamate_watchdog.Recovery.{World, Progress, Outside, Times, waiting_after_restart}
use teslamate_watchdog.Watchdog.{Watchdog, Cycle, check_once, build_watchdog}
use teslamate_watchdog.Examples.Data.{config, python, is_sign_in, proxy, proxy_with}

abbrev pub classifier : Classifier
classifier = new_classifier [] []

abbrev pub times : ℕ → Times
times t = record {
  guard = seconds t;
  captured = seconds t;
  recorded = seconds (t + 5);
  counted = seconds (t + 5);
  monotonic = seconds t;
}

abbrev pub outside : ℕ → Proxy → Outside
outside t p = record {
  times = times t;
  logs_proxy = p;
  incident = none;
  proxy = p;
  writable = true;
}

-- a cycle at a time, with the web interface up, and with what the proxy says
abbrev pub cycle_at : ℕ → Proxy → Proxy → Cycle
cycle_at t seen p = record {
  http = got (record { status_code = 200; location = none; body = chunk (79 ∷ []) end });
  elapsed_ms = 12;
  checked_at = "now";
  read_at = seconds t;
  status_proxy = seen;
  database_proxy = p;
  logs_proxy = p;
  logs_at = seconds t;
  database_connection = none;
  auth_connection = none;
  outside = outside t p;
  failure_iso = "now";
  check_iso = "now";
}

abbrev pub down : Proxy
down = proxy_with false (some "healthy") (responded 204 "")

abbrev pub first_cycle : Cycle
first_cycle = cycle_at 1000 proxy proxy

-- the container is stopped, while the database is healthy
abbrev pub second_cycle : Cycle
second_cycle = cycle_at 1060 down proxy

abbrev pub new_manager : Manager
new_manager = record { history = []; file = HistoryFile.not_found }

abbrev pub at_first : Watchdog
at_first = build_watchdog new_manager new_mqtt

abbrev pub after_first : Watchdog
after_first = check_once python is_sign_in classifier config first_cycle at_first

abbrev pub after_second : Watchdog
after_second = check_once python is_sign_in classifier config second_cycle after_first

-- a watchdog that has found the database healthy twice
abbrev pub ready_watchdog : Watchdog
ready_watchdog = record at_first { database_healthy_streak = 2 }

abbrev pub progress : Progress
progress = record {
  trigger_state = teslamate_unreachable;
  reason = "down";
  deadline = seconds 1185;
  healthy_streak = 0;
  failure_streak = 0;
}

-- in the middle of a recovery
abbrev pub busy_world : World
busy_world = record (build_watchdog new_manager new_mqtt).world {
  machine = StateMachine.new_machine StateMachine.recovering;
  progress = some progress;
  status = waiting_after_restart;
}

abbrev pub to_unreachable : Transition
to_unreachable = record {
  previous = starting;
  current = teslamate_unreachable;
  reason = "teslamate container is not running";
}
