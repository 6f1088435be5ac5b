-- ===== src/Config/FromEnv.antt =====
-- `Config.from_env`, in the order in which the code reads, and so raises.
use teslamate_watchdog.Shared.{
  ℕ, String, Bool, true, false, ◌&&◌, not, List, [], ◌∷◌, str_eq, is_some, or_default,
  if◌then◌else◌,
}
use teslamate_watchdog.Shared.Text.{fstring, repr}
use teslamate_watchdog.Shared.Strings.{rstrip_slashes}
use teslamate_watchdog.Python.{Python}
use teslamate_watchdog.Config.{TopicLayout, Config, derive}
use teslamate_watchdog.Config.Result.{Result, ok, config_error, refuse_if, ◌>>=◌, ◌>>◌}
use teslamate_watchdog.Config.Env.{
  Environment, default_signin_body_markers, env_text, env_csv, env_int, env_bool, parse_duration,
}
use teslamate_watchdog.Config.Validation.{FileSystem, validate}

-- The values that are checked while they are read, in groups.
pub record Targets : Type 0 where
  pub docker_timeout_seconds : ℕ
  pub database_port : ℕ
  pub tesla_auth_port : ℕ
  pub logged_out_restart_enabled : Bool

pub record Broker : Type 0 where
  pub mqtt_port : ℕ
  pub mqtt_tls : Bool
  pub mqtt_tls_insecure : Bool

pub record Timing : Type 0 where
  pub check_interval_seconds : ℕ
  pub http_timeout_seconds : ℕ
  pub mqtt_stale_seconds : ℕ
  pub mqtt_parked_stale_seconds : ℕ

pub record Counters : Type 0 where
  pub failure_confirmation_count : ℕ
  pub recovery_confirmation_count : ℕ
  pub logger_unhealthy_confirmation_count : ℕ

pub record Policy : Type 0 where
  pub auto_restart_enabled : Bool
  pub restart_cooldown_seconds : ℕ
  pub post_restart_wait_seconds : ℕ
  pub max_restarts_per_24_hours : ℕ

pub record Windows : Type 0 where
  pub diagnostic_log_lookback_seconds : ℕ
  pub log_analysis_lookback_seconds : ℕ
  pub diagnostic_retention_days : ℕ
  pub ha_discovery_enabled : Bool

abbrev pub health_topic : Environment → String
health_topic env = env_text env "TESLAMATE_HEALTH_TOPIC" "teslamate/cars/1/healthy"

abbrev pub lookback : Environment → String
lookback env = env_text env "DIAGNOSTIC_LOG_LOOKBACK" "2h"

abbrev pub analysis_lookback : Environment → String
analysis_lookback env = env_text env "LOG_ANALYSIS_LOOKBACK" "15m"

module _ (py : Python) (env : Environment) where
  -- whether staleness detection is on, and the notes
  unfoldable pub read_staleness : TopicLayout → Result (Bool × List String)
  read_staleness topics = do
    requested ← env_bool py env "STALENESS_DETECTION_ENABLED" true
    if not (requested && not (is_some topics.state_filter))
        then ok (requested, [])
        else if is_some (env "STALENESS_DETECTION_ENABLED")
        then config_error
            "STALENESS_DETECTION_ENABLED requires a TESLAMATE_HEALTH_TOPIC of the form <root>/cars/<id>/healthy so the car's state topic can be derived for gating"
        else ok (
          false,
          fstring (
                "staleness detection disabled automatically: TESLAMATE_HEALTH_TOPIC "
                ∷ repr (health_topic env)
                ∷ " has no derivable car state topic to gate on"
                ∷ [])
              ∷ [],
        )

  unfoldable pub read_targets : Result Targets
  read_targets = do
    timeout ← env_int py env "DOCKER_TIMEOUT_SECONDS" 10 1
    database_port ← env_int py env "DATABASE_PORT" 5432 1
    auth_port ← env_int py env "TESLA_AUTH_PORT" 443 1
    logged_out ← env_bool py env "LOGGED_OUT_RESTART_ENABLED" true
    ok (record {
      docker_timeout_seconds = timeout;
      database_port = database_port;
      tesla_auth_port = auth_port;
      logged_out_restart_enabled = logged_out;
    })

  unfoldable pub read_broker : Result Broker
  read_broker = do
    port ← env_int py env "MQTT_PORT" 1883 1
    tls ← env_bool py env "MQTT_TLS" false
    insecure ← env_bool py env "MQTT_TLS_INSECURE" false
    ok (record { mqtt_port = port; mqtt_tls = tls; mqtt_tls_insecure = insecure })

  unfoldable pub read_timing : Result Timing
  read_timing = do
    interval ← env_int py env "CHECK_INTERVAL_SECONDS" 60 5
    timeout ← env_int py env "HTTP_TIMEOUT_SECONDS" 10 1
    stale ← env_int py env "MQTT_STALE_SECONDS" 600 1
    parked ← env_int py env "MQTT_PARKED_STALE_SECONDS" 5400 1
    ok (record {
      check_interval_seconds = interval;
      http_timeout_seconds = timeout;
      mqtt_stale_seconds = stale;
      mqtt_parked_stale_seconds = parked;
    })

  unfoldable pub read_counters : Result Counters
  read_counters = do
    failure ← env_int py env "FAILURE_CONFIRMATION_COUNT" 3 1
    recovery ← env_int py env "RECOVERY_CONFIRMATION_COUNT" 2 1
    logger ← env_int py env "LOGGER_UNHEALTHY_CONFIRMATION_COUNT" 15 1
    ok (record {
      failure_confirmation_count = failure;
      recovery_confirmation_count = recovery;
      logger_unhealthy_confirmation_count = logger;
    })

  unfoldable pub read_policy : Result Policy
  read_policy = do
    enabled ← env_bool py env "AUTO_RESTART_ENABLED" true
    cooldown ← env_int py env "RESTART_COOLDOWN_SECONDS" 21600 0
    wait ← env_int py env "POST_RESTART_WAIT_SECONDS" 90 0
    cap ← env_int py env "MAX_RESTARTS_PER_24_HOURS" 2 0
    ok (record {
      auto_restart_enabled = enabled;
      restart_cooldown_seconds = cooldown;
      post_restart_wait_seconds = wait;
      max_restarts_per_24_hours = cap;
    })

  unfoldable pub read_windows : Result Windows
  read_windows = do
    diagnostic ← parse_duration py "DIAGNOSTIC_LOG_LOOKBACK" (lookback env)
    analysis ← parse_duration py "LOG_ANALYSIS_LOOKBACK" (analysis_lookback env)
    retention ← env_int py env "DIAGNOSTIC_RETENTION_DAYS" 14 0
    discovery ← env_bool py env "HA_DISCOVERY_ENABLED" true
    ok (record {
      diagnostic_log_lookback_seconds = diagnostic;
      log_analysis_lookback_seconds = analysis;
      diagnostic_retention_days = retention;
      ha_discovery_enabled = discovery;
    })

  -- the call of `cls`
  unfoldable pub assemble :
      String
      → TopicLayout
      → Bool × List String
      → Targets
      → Broker
      → Timing
      → Counters
      → Policy
      → Windows
      → Config
  assemble mqtt_host topics (staleness, notes) targets broker timing counters policy windows =
      let database_container = env_text env "DATABASE_CONTAINER" "database" in
      record {
        teslamate_url = env_text env "TESLAMATE_URL" "http://teslamate:4000/";
        teslamate_container = env_text env "TESLAMATE_CONTAINER" "teslamate";
        database_container = database_container;
        docker_host = env_text env "DOCKER_HOST" "tcp://socket-proxy:2375";
        docker_timeout_seconds = targets.docker_timeout_seconds;
        database_host = env_text env "DATABASE_HOST" database_container;
        database_port = targets.database_port;
        teslamate_signin_pattern = env_text env "TESLAMATE_SIGNIN_PATTERN" "/sign[_-]?in";
        tesla_auth_host = env_text env "TESLA_AUTH_HOST" "auth.tesla.com";
        tesla_auth_port = targets.tesla_auth_port;
        logged_out_restart_enabled = targets.logged_out_restart_enabled;
        signin_body_markers =
            env_csv env "TESLAMATE_SIGNIN_BODY_MARKERS" default_signin_body_markers;
        mqtt_host = mqtt_host;
        mqtt_port = broker.mqtt_port;
        mqtt_username = env_text env "MQTT_USERNAME" "";
        mqtt_password = or_default (env "MQTT_PASSWORD") "";
        mqtt_tls = broker.mqtt_tls;
        mqtt_tls_ca_cert = env_text env "MQTT_TLS_CA_CERT" "";
        mqtt_tls_insecure = broker.mqtt_tls_insecure;
        mqtt_base_topic = rstrip_slashes (env_text env "MQTT_BASE_TOPIC" "teslamate/watchdog");
        teslamate_health_topic = health_topic env;
        topics = topics;
        check_interval_seconds = timing.check_interval_seconds;
        http_timeout_seconds = timing.http_timeout_seconds;
        mqtt_stale_seconds = timing.mqtt_stale_seconds;
        mqtt_parked_stale_seconds = timing.mqtt_parked_stale_seconds;
        staleness_detection_enabled = staleness;
        failure_confirmation_count = counters.failure_confirmation_count;
        recovery_confirmation_count = counters.recovery_confirmation_count;
        logger_unhealthy_confirmation_count = counters.logger_unhealthy_confirmation_count;
        auto_restart_enabled = policy.auto_restart_enabled;
        restart_cooldown_seconds = policy.restart_cooldown_seconds;
        post_restart_wait_seconds = policy.post_restart_wait_seconds;
        max_restarts_per_24_hours = policy.max_restarts_per_24_hours;
        diagnostic_dir = env_text env "DIAGNOSTIC_DIR" "/data/diagnostics";
        diagnostic_log_lookback = lookback env;
        diagnostic_log_lookback_seconds = windows.diagnostic_log_lookback_seconds;
        log_analysis_lookback = analysis_lookback env;
        log_analysis_lookback_seconds = windows.log_analysis_lookback_seconds;
        diagnostic_retention_days = windows.diagnostic_retention_days;
        ha_discovery_enabled = windows.ha_discovery_enabled;
        ha_discovery_prefix = rstrip_slashes (env_text env "HA_DISCOVERY_PREFIX" "homeassistant");
        log_level = py.upper (env_text env "LOG_LEVEL" "INFO");
        patterns_file = env_text env "PATTERNS_FILE" "/app/patterns.yaml";
        data_dir = env_text env "DATA_DIR" "/data";
        notes = notes;
      }

  -- everything that is read, before it is validated
  unfoldable pub read_config : Result Config
  read_config = do
    let mqtt_host = env_text env "MQTT_HOST" ""
    refuse_if (str_eq mqtt_host "")
        "MQTT_HOST is required — the watchdog has no other output channel"
    let topics = derive (health_topic env)
    staleness ← read_staleness topics
    targets ← read_targets
    broker ← read_broker
    timing ← read_timing
    counters ← read_counters
    policy ← read_policy
    windows ← read_windows
    ok (assemble mqtt_host topics staleness targets broker timing counters policy windows)

  -- `Config.from_env`
  unfoldable pub from_env : FileSystem → Result Config
  from_env files = do config ← read_config; validate files config >> ok config
