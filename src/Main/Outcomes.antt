-- ===== src/Main/Outcomes.antt =====
-- How `main` ends.
use mathlib.Core.Path.{subst}
use teslamate_watchdog.Shared.{
  ℕ, String, ◌≡◌, refl, ap, Bool, true, false, Option, none, some, [], if◌then◌else◌,
}
use teslamate_watchdog.Shared.Json.{Json}
use teslamate_watchdog.Python.{Python}
use teslamate_watchdog.Config.{Config, availability_topic}
use teslamate_watchdog.Config.Result.{Result, ok, config_error, uncaught}
use teslamate_watchdog.Config.FromEnv.{from_env}
use teslamate_watchdog.Config.Validation.{IsValid}
use teslamate_watchdog.Config.Bounds.{IsInRange, from_env-IsValid}
use teslamate_watchdog.RestartManager.{Manager}
use teslamate_watchdog.MqttClient.{Mqtt, stop, publish_raw, payload_offline}
use teslamate_watchdog.MqttClient.Retained.{retained}
use teslamate_watchdog.MqttClient.Connection.{Options, connection_options}
use teslamate_watchdog.HaDiscovery.Available.{retained-last}
use teslamate_watchdog.Main.{Launch, Outcome, build_and_serve, connect_and_serve, start, main}

-- If a client that has stopped was connected, its last retained message on the availability
-- topic is "offline".
pub SaysGoodbye : Config → Mqtt → Type 0
SaysGoodbye c m =
    m.connected ≡ true → retained (availability_topic c) m.published ≡ some payload_offline

if-SaysGoodbye :
    (c : Config) (m : Mqtt) (connected : Bool)
    → m.connected ≡ connected
    → SaysGoodbye c
        (if connected then publish_raw (availability_topic c) payload_offline true m else m)
unfolding SaysGoodbye publish_raw
if-SaysGoodbye c m true e on = retained-last c m.published _ [] refl refl refl
if-SaysGoodbye c m false e on = absurd (cc (e, on))

stop-SaysGoodbye : (c : Config) (m : Mqtt) → SaysGoodbye c (stop c m)
unfolding stop
stop-SaysGoodbye c m = if-SaysGoodbye c m m.connected refl

module _ (py : Python) (float_of_text : String → Option ℕ) (str_of : Json → String) (l : Launch)
    (c : Config) (m : Mqtt) where
  -- the configuration with which `main` ends is the one that it started with
  Ended : Config → Type 0
  Ended read = (read ≡ c) × SaysGoodbye c m

  finished-Ended :
      (read : Config) (ended : Mqtt)
      → Outcome.finished read (stop read ended) ≡ Outcome.finished c m
      → Ended read
  unfolding Ended
  finished-Ended read ended h =
      let same : read ≡ c = cc h in
      let same' : stop read ended ≡ m = cc h in
      (
        same,
        subst (SaysGoodbye c) same'
            (subst (λ x. SaysGoodbye x (stop read ended)) same (stop-SaysGoodbye read ended)),
      )

  build-Ended :
      (read : Config) (restarts : Option Manager)
      → build_and_serve py float_of_text str_of l read restarts ≡ Outcome.finished c m
      → Ended read
  unfolding build_and_serve
  build-Ended read none h = absurd (cc h)
  build-Ended read (some restarts) h = finished-Ended read _ h

  connect-Ended :
      (read : Config) (options : Result Options)
      → connect_and_serve py float_of_text str_of l read options ≡ Outcome.finished c m
      → Ended read
  unfolding connect_and_serve
  connect-Ended read (ok _) h = build-Ended read _ h
  connect-Ended read (config_error _) h = absurd (cc h)
  connect-Ended read uncaught h = absurd (cc h)

  start-Ended :
      (read : Result Config)
      → start py float_of_text str_of l read ≡ Outcome.finished c m
      → (read ≡ ok c) × SaysGoodbye c m
  unfolding start Ended
  start-Ended (ok read) h =
      let (same, goodbye) =
        connect-Ended read (connection_options l.fresh_context l.load_error read) h in
      (ap ok same, goodbye)
  start-Ended (config_error text) h = absurd (cc h)
  start-Ended uncaught h = absurd (cc h)

  -- If main ends with status 0, then its configuration is valid and within its bounds, and if the
  -- client was connected at the end, the last retained message that it published on the
  -- availability topic is "offline".
  pub main-finished :
      main py float_of_text str_of l ≡ Outcome.finished c m
      → IsValid l.files c × IsInRange c × SaysGoodbye c m
  unfolding main
  main-finished h =
      let (read, goodbye) = start-Ended (from_env py l.environment l.files) h in
      let (valid, in_range) = from_env-IsValid py l.environment l.files c read in
      (valid, in_range, goodbye)
