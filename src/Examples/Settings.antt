-- ===== src/Examples/Settings.antt =====
-- The defaults of src/config.py, and durations, read from an environment.
use teslamate_watchdog.Shared.{
  [], ◌*◌, ◌≢◌, ◌≡◌, refl, ◌↔◌, true, false, none, some, str_eq, if◌then◌else◌,
}
use teslamate_watchdog.Shared.Int.{scan, scan_signed, int}
use teslamate_watchdog.Shared.Strings.{is_space}
use teslamate_watchdog.Shared.Text.{str}
use teslamate_watchdog.Config.{Config, derive, derive_from}
use teslamate_watchdog.Config.Result.{ok}
use teslamate_watchdog.Config.Env.{
  Environment, parse_duration, match_duration, unit_seconds, at_least, env_int, env_text, env_csv,
  env_bool, default_signin_body_markers,
}
use teslamate_watchdog.Config.FromEnv.{
  from_env, read_config, read_staleness, read_targets, read_broker, read_timing, read_counters,
  read_policy, read_windows, assemble,
}
use teslamate_watchdog.Config.Validation.{FileSystem, IsValid, validate, validate-IsValid}
use teslamate_watchdog.Config.Bounds.{IsInRange, from_env-IsValid}
use teslamate_watchdog.Config.Printed.{hour, parse_duration-str}
use teslamate_watchdog.Config.Summary.{summary, summary-hides}
use teslamate_watchdog.MqttClient.Connection.{
  Trust, TlsContext, build_tls_context, IsLax, build_tls_context-strict,
}
use teslamate_watchdog.Examples.Data.{python}

abbrev pub only_host : Environment
only_host name = if str_eq name "MQTT_HOST" then some "mosquitto" else none

abbrev pub files : FileSystem
files = record { compile_error = λ p. none; is_file = λ f. false }

-- The configuration of an environment that names nothing but the MQTT host.
abbrev pub defaults : Config
defaults = record {
  teslamate_url = "http://teslamate:4000/";
  teslamate_container = "teslamate";
  database_container = "database";
  docker_host = "tcp://socket-proxy:2375";
  docker_timeout_seconds = 10;
  database_host = "database";
  database_port = 5432;
  teslamate_signin_pattern = "/sign[_-]?in";
  tesla_auth_host = "auth.tesla.com";
  tesla_auth_port = 443;
  logged_out_restart_enabled = true;
  signin_body_markers = default_signin_body_markers;
  mqtt_host = "mosquitto";
  mqtt_port = 1883;
  mqtt_username = "";
  mqtt_password = "";
  mqtt_tls = false;
  mqtt_tls_ca_cert = "";
  mqtt_tls_insecure = false;
  mqtt_base_topic = "teslamate/watchdog";
  teslamate_health_topic = "teslamate/cars/1/healthy";
  topics = record {
    health_filter = "teslamate/cars/+/healthy";
    state_filter = some "teslamate/cars/+/state";
    primary_car_id = some "1";
  };
  check_interval_seconds = 60;
  http_timeout_seconds = 10;
  mqtt_stale_seconds = 600;
  mqtt_parked_stale_seconds = 5400;
  staleness_detection_enabled = true;
  failure_confirmation_count = 3;
  recovery_confirmation_count = 2;
  logger_unhealthy_confirmation_count = 15;
  auto_restart_enabled = true;
  restart_cooldown_seconds = 21600;
  post_restart_wait_seconds = 90;
  max_restarts_per_24_hours = 2;
  diagnostic_dir = "/data/diagnostics";
  diagnostic_log_lookback = "2h";
  diagnostic_log_lookback_seconds = 7200;
  log_analysis_lookback = "15m";
  log_analysis_lookback_seconds = 900;
  diagnostic_retention_days = 14;
  ha_discovery_enabled = true;
  ha_discovery_prefix = "homeassistant";
  log_level = "INFO";
  patterns_file = "/app/patterns.yaml";
  data_dir = "/data";
  notes = [];
}

pub from_env-defaults : from_env python only_host files ≡ ok defaults
unfolding from_env read_config read_staleness read_targets read_broker read_timing read_counters
    read_policy read_windows assemble env_text env_csv env_int env_bool at_least parse_duration
    match_duration unit_seconds scan scan_signed int validate derive derive_from is_space str
from_env-defaults = refl

from_env-IsValid_example : IsValid files defaults × IsInRange defaults
from_env-IsValid_example = from_env-IsValid python only_host files defaults from_env-defaults

validate-IsValid_example : (validate files defaults ≡ ok tt) ↔ IsValid files defaults
validate-IsValid_example = validate-IsValid files defaults

parse_duration-str_example : parse_duration python "LOG_ANALYSIS_LOOKBACK" "12h" ≡ ok (12 * 3600)
unfolding str
parse_duration-str_example = parse_duration-str python (λ c h. refl) "LOG_ANALYSIS_LOOKBACK" 12 hour

summary-hides_example :
    summary (record defaults { mqtt_username = ""; mqtt_password = "secret" })
    ≡ summary (record defaults { mqtt_username = ""; mqtt_password = "other" })
summary-hides_example =
    summary-hides (record defaults { mqtt_password = "other" }) "" "secret" refl refl

-- A private authority, with verification on.
abbrev private_tls : Config
private_tls = record defaults { mqtt_tls = true; mqtt_tls_ca_cert = "/ca.pem" }

abbrev pub client_context : TlsContext
client_context = record { check_hostname = true; verify_certificate = true; trust = Trust.nobody }

abbrev private_context : TlsContext
private_context = record client_context { trust = Trust.file "/ca.pem" }

build_tls_context-strict_example :
    (IsLax client_context (λ path. none) private_tls private_context ↔ (false ≡ true))
    × (false ≡ false
        → (private_tls.mqtt_tls_ca_cert ≢ ""
            → private_context.trust ≡ Trust.file private_tls.mqtt_tls_ca_cert)
          × (private_tls.mqtt_tls_ca_cert ≡ "" → private_context.trust ≡ Trust.system))
unfolding build_tls_context
build_tls_context-strict_example =
    build_tls_context-strict client_context (λ path. none) private_tls refl refl private_context
      refl
