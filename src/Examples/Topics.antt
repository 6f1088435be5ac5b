-- ===== src/Examples/Topics.antt =====
-- The car topics of src/mqtt_client.py and the log lines of src/log_classifier.py.
use teslamate_watchdog.Shared.{
  [], ◌≤◌, String, ◌≡◌, refl, ◌↔◌, true, false, some, List, ◌∷◌, is_some,
}
use teslamate_watchdog.Shared.Strings.{contains, is_space}
use teslamate_watchdog.Config.{derive, derive_from, car_id_from_topic, second_last}
use teslamate_watchdog.RestartManager.{seconds}
use teslamate_watchdog.MqttClient.{
  CarObservation, Mqtt, new_mqtt, new_car, get_car, update_car, parse_bool_payload, note_message,
  on_message, on_connect, publish_raw, staleness,
}
use teslamate_watchdog.MqttClient.Staleness.{IsSilent, staleness-IsSilent}
use teslamate_watchdog.LogClassifier.{Dict, Pattern, Classifier, new_classifier, classify}
use teslamate_watchdog.LogClassifier as Logs
use teslamate_watchdog.LogClassifier.Counts.{matching_lines, classify-confirmed}
use teslamate_watchdog.Examples.Data.{config, python, split_words, split_lines}

derive-default : derive "teslamate/cars/1/healthy" ≡ config.topics
unfolding derive derive_from
derive-default = refl

abbrev connected : Mqtt
connected = on_connect config false (seconds 100) (λ m. m) new_mqtt

abbrev heard : Mqtt
heard = on_message python.lower "teslamate/cars/1/healthy" "true " (seconds 200) "now" connected

abbrev car : CarObservation
car = record (new_car "1") {
  healthy_payload = some "true";
  healthy = some true;
  healthy_monotonic = some (seconds 200);
  healthy_at = some "now";
}

cars-heard : get_car "1" heard.cars ≡ some car
unfolding on_message car_id_from_topic second_last update_car note_message parse_bool_payload
    on_connect publish_raw get_car is_space
cars-heard = refl

staleness-IsSilent_example :
    (is_some (staleness python.lower config heard car (seconds 7401)) ≡ true)
    ↔ IsSilent python.lower config heard car (seconds 7401)
staleness-IsSilent_example = staleness-IsSilent python.lower config heard car (seconds 7401)

abbrev is_refresh_failure : Pattern
is_refresh_failure line = contains "refresh failed" line

abbrev patterns : Dict (List Pattern)
patterns =
    ("refresh_failure", is_refresh_failure ∷ [])
    ∷ ("database_failure", (λ line. contains "Postgrex" line) ∷ [])
    ∷ []

abbrev classifier : Classifier
classifier = new_classifier patterns (("refresh_failure", 2) ∷ [])

abbrev log : String
log = "token refresh failed\n\nok\nrefresh failed again, refresh failed"

classify-confirmed_example :
    (Logs.confirmed classifier.thresholds
        (classify split_words split_lines classifier log)
        "refresh_failure"
      ≡ true)
    ↔ (2 ≤ matching_lines patterns "refresh_failure" (split_lines log))
unfolding new_classifier
classify-confirmed_example =
    classify-confirmed split_words split_lines classifier log "refresh_failure" (refl, (refl, tt))
