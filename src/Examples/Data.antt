-- ===== src/Examples/Data.antt =====
-- A configuration of src/config.py, and what is observed under it.
use teslamate_watchdog.Shared.{
  [], ℕ, String, Bool, true, false, Option, none, some, List, ◌∷◌, str_eq,
}
use teslamate_watchdog.Shared.Strings.{split_at, non_empty}
use teslamate_watchdog.Shared.Int.{ascii_digit}
use teslamate_watchdog.Shared.Json.{Json}
use teslamate_watchdog.Python.{Python}
use teslamate_watchdog.Config.{Config}
use teslamate_watchdog.HttpCheck.{HttpCategory, HttpResult}
use teslamate_watchdog.StateMachine.{LogSignals, Observation}
use teslamate_watchdog.DockerClient.{
  ContainerRef, Proxy, Listed, Inspected, Post, answered, decoded, failed, responded, timed_out,
}

abbrev pub config : Config
config = record {
  teslamate_url = "http://teslamate:4000";
  teslamate_container = "teslamate";
  database_container = "database";
  docker_host = "tcp://docker-socket-proxy:2375";
  docker_timeout_seconds = 15;
  database_host = "database";
  database_port = 5432;
  teslamate_signin_pattern = "/sign_in";
  tesla_auth_host = "auth.tesla.com";
  tesla_auth_port = 443;
  logged_out_restart_enabled = true;
  signin_body_markers = "Sign in" ∷ [];
  mqtt_host = "mosquitto";
  mqtt_port = 1883;
  mqtt_username = "";
  mqtt_password = "";
  mqtt_tls = false;
  mqtt_tls_ca_cert = "";
  mqtt_tls_insecure = false;
  mqtt_base_topic = "teslamate_watchdog";
  teslamate_health_topic = "teslamate/cars/1/healthy";
  topics = record {
    health_filter = "teslamate/cars/+/healthy";
    state_filter = some "teslamate/cars/+/state";
    primary_car_id = some "1";
  };
  check_interval_seconds = 60;
  http_timeout_seconds = 10;
  mqtt_stale_seconds = 900;
  mqtt_parked_stale_seconds = 7200;
  staleness_detection_enabled = true;
  failure_confirmation_count = 3;
  recovery_confirmation_count = 2;
  logger_unhealthy_confirmation_count = 4;
  auto_restart_enabled = true;
  restart_cooldown_seconds = 1800;
  post_restart_wait_seconds = 120;
  max_restarts_per_24_hours = 2;
  diagnostic_dir = "/diagnostics";
  diagnostic_log_lookback = "30m";
  diagnostic_log_lookback_seconds = 1800;
  log_analysis_lookback = "10m";
  log_analysis_lookback_seconds = 600;
  diagnostic_retention_days = 30;
  ha_discovery_enabled = true;
  ha_discovery_prefix = "homeassistant";
  log_level = "INFO";
  patterns_file = "/app/config/patterns.yaml";
  data_dir = "/data";
  notes = [];
}

abbrev pub split_words : String → List String
split_words s = non_empty (split_at b' ' s)

abbrev pub split_lines : String → List String
split_lines s = split_at 10 s

abbrev pub python : Python
python = record {
  isoformat = λ t. "2026-01-01T00:00:00+00:00";
  decode = λ bytes. "";
  lower = λ s. s;
  upper = λ s. s;
  words = split_words;
  lines = split_lines;
  digit_value = ascii_digit;
  dumps = λ value. "{}";
  dumps_indented = λ value. "{}";
}

-- the configured sign-in pattern
abbrev pub is_sign_in : String → Bool
is_sign_in location = str_eq location "/sign_in"

abbrev pub no_float : String → Option ℕ
no_float s = none

abbrev pub as_text : Json → String
as_text v = ""

abbrev pub http_result : HttpCategory → HttpResult
http_result category = record {
  category = category;
  status_code = some 200;
  redirect_target = none;
  elapsed_ms = some 12;
  error = none;
  detail = none;
  checked_at = "now";
}

abbrev pub no_signals : LogSignals
no_signals = record {
  auth_refresh_failing = false;
  auth_lost = false;
  database_failure = false;
  token_decryption_failure = false;
  refresh_success = false;
  matches = [];
}

abbrev pub good : Observation
good = record {
  http = http_result HttpCategory.authenticated;
  logger_healthy = some true;
  logger_stale = false;
  logger_detail = "";
  database_healthy = some true;
  teslamate_container_running = some true;
  log_signals = some no_signals;
}

abbrev pub signed_out : Observation
signed_out = record good { http = http_result HttpCategory.logged_out }

abbrev pub vague : Observation
vague = record good { http = http_result HttpCategory.unknown }

abbrev pub stopped : Observation
stopped = record good { teslamate_container_running = some false }

abbrev pub silent : Observation
silent = record good { logger_healthy = some false }

abbrev pub teslamate_entry : Listed
teslamate_entry = record { id = some "4f1d"; names = "/teslamate" ∷ []; service = some "teslamate" }

abbrev pub database_entry : Listed
database_entry = record { id = some "9b2c"; names = "/database" ∷ []; service = some "database" }

abbrev pub teslamate_ref : ContainerRef
teslamate_ref = record { id = "4f1d"; name = "teslamate"; compose_service = some "teslamate" }

abbrev pub inspected : Bool → Option String → Inspected
inspected running health = record {
  state = some (record {
    running = some running;
    status = some "running";
    health = health;
    oom_killed = some false;
    exit_code = some 0;
    started_at = none;
    finished_at = none;
  });
  restart_count = some 0;
}

-- a proxy that sees both containers
abbrev pub proxy_with : Bool → Option String → Post → Proxy
proxy_with running health post = record {
  containers = answered 200 "" (decoded (database_entry ∷ teslamate_entry ∷ []));
  inspect = λ id. answered 200 "" (decoded (inspected running health));
  logs_reply = λ id since. failed "no logs";
  restart_reply = λ id. post;
}

abbrev pub proxy : Proxy
proxy = proxy_with true (some "healthy") (responded 204 "")

abbrev pub slow_proxy : Proxy
slow_proxy = proxy_with true (some "healthy") timed_out
