-- ===== src/Config/Summary.antt =====
-- What `Config` shows of itself: `docker_base_url`, and `summary`, the one dump of the configuration.
use teslamate_watchdog.Shared.{String, ◌≡◌, refl, str_eq, if◌then◌else◌}
use teslamate_watchdog.Shared.Json.{Json, Fields, opt_text}
use teslamate_watchdog.Shared.Strings.{rstrip_slashes, replace_first}
use teslamate_watchdog.Config.{Config}

-- `Config.docker_base_url`
abbrev pub docker_base_url : Config → String
docker_base_url c = rstrip_slashes (replace_first "tcp://" "http://" c.docker_host)

-- `Config.summary`
unfoldable pub summary : Config → Fields
summary c = Fields.field "teslamate_url" (Json.text c.teslamate_url) (
    Fields.field "teslamate_container" (Json.text c.teslamate_container) (
      Fields.field "database_container" (Json.text c.database_container) (
        Fields.field "docker_host" (Json.text c.docker_host) (
          Fields.field "mqtt_host" (Json.text c.mqtt_host) (
            Fields.field "mqtt_port" (Json.num c.mqtt_port) (
              Fields.field "mqtt_username"
                (Json.text (if str_eq c.mqtt_username "" then "<unset>" else "<set>"))
                (Fields.field "mqtt_password"
                  (Json.text (if str_eq c.mqtt_password "" then "<unset>" else "<set>"))
                  (Fields.field "mqtt_tls" (Json.bool c.mqtt_tls) (
                    Fields.field "mqtt_tls_ca_cert"
                      (Json.text (
                        if str_eq c.mqtt_tls_ca_cert ""
                        then "<system CAs>"
                        else c.mqtt_tls_ca_cert))
                      (Fields.field "mqtt_tls_insecure" (Json.bool c.mqtt_tls_insecure) (
                        Fields.field "mqtt_base_topic" (Json.text c.mqtt_base_topic) (
                          Fields.field "health_filter" (Json.text c.topics.health_filter) (
                            Fields.field "state_filter" (opt_text c.topics.state_filter) (
                              Fields.field "primary_car_id" (opt_text c.topics.primary_car_id) (
                                Fields.field "check_interval_seconds"
                                  (Json.num c.check_interval_seconds)
                                  (Fields.field "failure_confirmation_count"
                                    (Json.num c.failure_confirmation_count)
                                    (Fields.field "recovery_confirmation_count"
                                      (Json.num c.recovery_confirmation_count)
                                      (Fields.field "logger_unhealthy_confirmation_count"
                                        (Json.num c.logger_unhealthy_confirmation_count)
                                        (Fields.field "staleness_detection_enabled"
                                          (Json.bool c.staleness_detection_enabled)
                                          (Fields.field "mqtt_stale_seconds"
                                            (Json.num c.mqtt_stale_seconds)
                                            (Fields.field "mqtt_parked_stale_seconds"
                                              (Json.num c.mqtt_parked_stale_seconds)
                                              (Fields.field "log_analysis_lookback"
                                                (Json.text c.log_analysis_lookback)
                                                (Fields.field "diagnostic_log_lookback"
                                                  (Json.text c.diagnostic_log_lookback)
                                                  (Fields.field "auto_restart_enabled"
                                                    (Json.bool c.auto_restart_enabled)
                                                    (Fields.field "logged_out_restart_enabled"
                                                      (Json.bool c.logged_out_restart_enabled)
                                                      (Fields.field "restart_cooldown_seconds"
                                                        (Json.num c.restart_cooldown_seconds)
                                                        (Fields.field "max_restarts_per_24_hours"
                                                          (Json.num c.max_restarts_per_24_hours)
                                                          (Fields.field "ha_discovery_enabled"
                                                            (Json.bool c.ha_discovery_enabled)
                                                            (Fields.end)))))))))))))))))))))))))))))

-- The summary of a configuration, its one dump, depends on the user name and the password only
-- through whether each is empty.
pub summary-hides :
    (c : Config) (username password : String)
    → str_eq username "" ≡ str_eq c.mqtt_username ""
    → str_eq password "" ≡ str_eq c.mqtt_password ""
    → summary (record c { mqtt_username = username; mqtt_password = password }) ≡ summary c
unfolding summary
summary-hides c username password h h' = rw (h, h') refl
