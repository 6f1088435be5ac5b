-- ===== src/Main.antt =====
-- src/main.py: `main`, from the environment to the goodbye. Logging and signals are left out.
mod Callbacks
pub mod Attempt
pub mod Calm
pub mod World
pub mod Announced
pub mod Budget
pub mod Outcomes
pub mod Recovering
unfoldable pub use Callbacks.*
use teslamate_watchdog.Shared.{ℕ, String, Bool, Option, none, some, List, [], ◌∷◌}
use teslamate_watchdog.Shared.Text.{fstring}
use teslamate_watchdog.Shared.Json.{Json}
use teslamate_watchdog.Python.{Python}
use teslamate_watchdog.Config.{Config}
use teslamate_watchdog.Config.Result.{Result, ok, config_error, uncaught}
use teslamate_watchdog.Config.Env.{Environment}
use teslamate_watchdog.Config.FromEnv.{from_env}
use teslamate_watchdog.Config.Validation.{FileSystem}
use teslamate_watchdog.RestartManager.{HistoryFile, Manager}
use teslamate_watchdog.RestartManager.Persistence.{recreate}
use teslamate_watchdog.MqttClient.{Mqtt, new_mqtt, stop}
use teslamate_watchdog.MqttClient.Connection.{TlsContext, Options, connection_options}
use teslamate_watchdog.LogClassifier.{Classifier, Pattern}
use teslamate_watchdog.LogClassifier.FromFile.{Document, from_file}
use teslamate_watchdog.Watchdog.{Watchdog, Cycle, build_watchdog}
use teslamate_watchdog.Main.Attempt.{Trouble, attempt}

-- what happens while the watchdog runs
pub data Step : Type 0 where
  cycle : Cycle → Trouble → Step
  callback : Callback → Step

-- What `main` finds: the environment, files, a new TLS context, the error of a certificate file, `re.compile` for log
-- patterns, the sign-in pattern as compiled, the files of patterns and of the history; and what
-- happens before the watchdog is built and then until it is stopped, the latest first.
pub record Launch : Type 0 where
  pub environment : Environment
  pub files : FileSystem
  pub fresh_context : TlsContext
  pub load_error : String → Option String
  pub compile : String → Option Pattern
  pub search : String → String → Bool
  pub document : String → Document
  pub history : HistoryFile
  pub early : List Callback
  pub steps : List Step

-- How `main` ends: status 2 with what is printed, another exception, or status 0.
pub data Outcome : Type 0 where
  exited : String → Outcome
  raised : Outcome
  finished : Config → Mqtt → Outcome

module _ (py : Python) (c : Config) (search : String → Bool) (k : Classifier) where
  unfoldable pub advance : Step → Watchdog → Watchdog
  unfolding call
  advance (Step.cycle env t) d = attempt py search k c t env d
  advance (Step.callback x) d = record d { mqtt = call py c x d.mqtt }

  -- `Watchdog.run`, with what happens in its loop, the latest first
  unfoldable pub serve : List Step → Watchdog → Watchdog
  unfolding advance
  serve [] d = d
  serve (s ∷ past) d = advance s (serve past d)

module _ (py : Python) (float_of_text : String → Option ℕ) (str_of : Json → String)
    (l : Launch) where
  -- `main` from `build_watchdog` on; the manager's constructor may raise
  unfoldable pub build_and_serve : Config → Option Manager → Outcome
  unfolding serve calls
  build_and_serve c none = Outcome.raised
  build_and_serve c (some restarts) =
      let built = build_watchdog restarts (calls py c l.early new_mqtt) in
      let classifier = from_file l.compile (l.document c.patterns_file) in
      let ended = serve py c (l.search c.teslamate_signin_pattern) classifier l.steps built in
      Outcome.finished c (stop c ended.mqtt)

  -- after `WatchdogMqtt(config)`
  unfoldable pub connect_and_serve : Config → Result Options → Outcome
  unfolding build_and_serve
  connect_and_serve c (ok _) =
      build_and_serve c (recreate float_of_text str_of (record { history = []; file = l.history }))
  connect_and_serve c (config_error _) = Outcome.raised
  connect_and_serve c uncaught = Outcome.raised

  -- after `Config.from_env()`
  unfoldable pub start : Result Config → Outcome
  unfolding connect_and_serve
  start (ok c) = connect_and_serve c (connection_options l.fresh_context l.load_error c)
  start (config_error text) = Outcome.exited (fstring ("configuration error: " ∷ text ∷ []))
  start uncaught = Outcome.raised

  -- `main`
  unfoldable pub main : Outcome
  unfolding start
  main = start (from_env py l.environment l.files)
