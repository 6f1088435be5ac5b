-- ===== src/Main/Attempt.antt =====
-- One round of the loop of `Watchdog.run` of src/main.py: a cycle that may raise, with the calls of
-- the MQTT client that come in the middle of it. `run` catches the exception.
use teslamate_watchdog.Shared.{
  String, Bool, true, false, Option, none, some, List, [], ◌∷◌, if◌then◌else◌,
}
use teslamate_watchdog.Python.{Python}
use teslamate_watchdog.Config.{Config}
use teslamate_watchdog.StateMachine.{Observation}
use teslamate_watchdog.MqttClient.{Mqtt, logger_health, publish_state}
use teslamate_watchdog.LogClassifier.{Classifier}
use teslamate_watchdog.Events.{Event}
use teslamate_watchdog.Watchdog.{Watchdog, Cycle, observe, status_values}
use teslamate_watchdog.Watchdog.Raising.{react}
use teslamate_watchdog.Main.Callbacks.{Callback, calls}

-- What goes wrong in a cycle, and what comes in between: the HTTP check raises; what follows the
-- reading of the cars does; publishing an event does, or a status value; and the calls of the MQTT
-- client between that reading and the status, and before each status value.
pub record Trouble : Type 0 where
  pub http_raises : Bool
  pub docker_raises : Bool
  pub event_raises : List Event → Event → Bool
  pub status_raises : String → Bool
  pub meanwhile : List Callback
  pub before : String → List Callback

module _ (py : Python) (search : String → Bool) (k : Classifier) (c : Config) (t : Trouble) where
  -- `_observe`; the streak of the database is counted at its end.
  unfoldable pub try_observe : Cycle → Watchdog → Watchdog × Option Observation
  try_observe env d =
      let (seen, o) = observe py search k c env d in
      if t.http_raises
      then (d, none)
      else if t.docker_raises
      then (record d { mqtt = (logger_health py.lower c env.read_at d.mqtt).0 }, none)
      else (seen, some o)

  -- the loop of `_publish_status`
  unfoldable pub try_publish : List (String × String) → Mqtt → Mqtt
  try_publish [] m = m
  try_publish ((suffix, payload) ∷ rest) m =
      let called = calls py c (t.before suffix) m in
      let more = try_publish rest (publish_state c suffix payload called) in
      if t.status_raises suffix then called else more

  -- the calls of the client, after the cars are read
  abbrev pub interrupted : Watchdog → Watchdog
  interrupted d = record d { mqtt = calls py c t.meanwhile d.mqtt }

  -- `_publish_status`, if what is before it has not raised
  unfoldable pub try_status : Cycle → Observation → Watchdog → Bool → Watchdog
  unfolding try_publish
  try_status env o d true = record d {
    mqtt = try_publish (status_values py search k c env o d) d.mqtt;
  }
  try_status env o d false = d

  -- `check_once` after `_observe`
  unfoldable pub try_rest : Cycle → Watchdog → Option Observation → Watchdog
  unfolding try_status
  try_rest env d none = interrupted d
  try_rest env d (some o) =
      let (after, done) = react t.event_raises py search k c env o d in
      try_status env o (interrupted after) done

  -- `check_once`, up to an exception
  unfoldable pub attempt : Cycle → Watchdog → Watchdog
  unfolding try_observe try_rest
  attempt env d = let (seen, observed) = try_observe env d in try_rest env seen observed
