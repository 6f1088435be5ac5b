-- ===== src/Config.antt =====
-- src/config.py: the configuration record, and the topics derived from it.
pub mod Result
pub mod Env
pub mod FromEnv
pub mod Validation
pub mod Bounds
pub mod Printed
pub mod Summary
use teslamate_watchdog.Shared.{
  ℕ, String, Bool, Option, none, some, List, [], ◌∷◌, str_eq, if◌then◌else◌,
}
use teslamate_watchdog.Shared.Text.{fstring}
use teslamate_watchdog.Shared.Strings.{split_at, non_empty, join}

-- The car topics derived from the health topic.
pub record TopicLayout : Type 0 where
  pub health_filter : String
  pub state_filter : Option String
  pub primary_car_id : Option String

-- Every number has a minimum of 0 or more in `from_env`, so naturals are exact.
pub record Config : Type 0 where
  pub teslamate_url : String
  pub teslamate_container : String
  pub database_container : String
  pub docker_host : String
  pub docker_timeout_seconds : ℕ
  pub database_host : String
  pub database_port : ℕ
  pub teslamate_signin_pattern : String
  pub tesla_auth_host : String
  pub tesla_auth_port : ℕ
  pub logged_out_restart_enabled : Bool
  pub signin_body_markers : List String
  pub mqtt_host : String
  pub mqtt_port : ℕ
  pub mqtt_username : String
  pub mqtt_password : String
  pub mqtt_tls : Bool
  pub mqtt_tls_ca_cert : String
  pub mqtt_tls_insecure : Bool
  pub mqtt_base_topic : String
  pub teslamate_health_topic : String
  pub topics : TopicLayout
  pub check_interval_seconds : ℕ
  pub http_timeout_seconds : ℕ
  pub mqtt_stale_seconds : ℕ
  pub mqtt_parked_stale_seconds : ℕ
  pub staleness_detection_enabled : Bool
  pub failure_confirmation_count : ℕ
  pub recovery_confirmation_count : ℕ
  pub logger_unhealthy_confirmation_count : ℕ
  pub auto_restart_enabled : Bool
  pub restart_cooldown_seconds : ℕ
  pub post_restart_wait_seconds : ℕ
  pub max_restarts_per_24_hours : ℕ
  pub diagnostic_dir : String
  pub diagnostic_log_lookback : String
  pub diagnostic_log_lookback_seconds : ℕ
  pub log_analysis_lookback : String
  pub log_analysis_lookback_seconds : ℕ
  pub diagnostic_retention_days : ℕ
  pub ha_discovery_enabled : Bool
  pub ha_discovery_prefix : String
  pub log_level : String
  pub patterns_file : String
  pub data_dir : String
  pub notes : List String

-- The segments of a topic that are not empty, as a list with the last one first.
abbrev pub backwards : List String → List String → List String
backwards acc [] = acc
backwards acc (s ∷ ss) = backwards (s ∷ acc) ss

abbrev pub segments : String → List String
segments topic = non_empty (split_at b'/' topic)

-- `TopicLayout.derive` on the segments, the last one first
unfoldable pub derive_from : String → List String → TopicLayout
derive_from health_topic (last ∷ car_id ∷ p ∷ prefix) =
    if str_eq last "healthy"
    then record {
      health_filter = join "/" (backwards ("+" ∷ "healthy" ∷ []) (p ∷ prefix));
      state_filter = some (join "/" (backwards ("+" ∷ "state" ∷ []) (p ∷ prefix)));
      primary_car_id = some car_id;
    }
    else record { health_filter = health_topic; state_filter = none; primary_car_id = none }
derive_from health_topic _ = record {
  health_filter = health_topic;
  state_filter = none;
  primary_car_id = none;
}

-- `TopicLayout.derive`
unfoldable pub derive : String → TopicLayout
unfolding derive_from
derive health_topic = derive_from health_topic (backwards [] (segments health_topic))

unfoldable pub second_last : String → List String → String
second_last topic (_ ∷ s ∷ _) = s
second_last topic _ = topic

-- `TopicLayout.car_id_from_topic`
unfoldable pub car_id_from_topic : String → String
unfolding second_last
car_id_from_topic topic = second_last topic (backwards [] (segments topic))

-- `Config.topic`
unfoldable pub topic : Config → String → String
topic c suffix = fstring (c.mqtt_base_topic ∷ "/" ∷ suffix ∷ [])

unfoldable pub availability_topic : Config → String
unfolding topic
availability_topic c = topic c "availability"

unfoldable pub event_topic : Config → String
unfolding topic
event_topic c = topic c "event"
