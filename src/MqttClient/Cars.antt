-- ===== src/MqttClient/Cars.antt =====
-- The data of src/mqtt_client.py.
use teslamate_watchdog.Shared.{ℕ, String, Bool, false, Option, none, List, [], ◌∷◌}
use teslamate_watchdog.Shared.Json.{Json, Fields, opt_text, opt_bool}

abbrev pub payload_online : String
payload_online = "online"

abbrev pub payload_offline : String
payload_offline = "offline"

abbrev pub active_car_states : List String
active_car_states = "driving" ∷ "charging" ∷ []

abbrev pub true_payloads : List String
true_payloads = "true" ∷ "1" ∷ "on" ∷ "online" ∷ []

abbrev pub false_payloads : List String
false_payloads = "false" ∷ "0" ∷ "off" ∷ "offline" ∷ []

pub record CarObservation : Type 0 where
  pub car_id : String
  pub healthy_payload : Option String
  pub healthy : Option Bool
  pub healthy_monotonic : Option ℕ
  pub healthy_at : Option String
  pub state_payload : Option String
  pub state_monotonic : Option ℕ
  pub state_at : Option String

-- `CarObservation.as_dict`
unfoldable pub car_as_dict : CarObservation → Json
car_as_dict car = Json.obj (
    Fields.field "car_id" (Json.text car.car_id) (
      Fields.field "healthy_payload" (opt_text car.healthy_payload) (
        Fields.field "healthy" (opt_bool car.healthy) (
          Fields.field "healthy_at" (opt_text car.healthy_at) (
            Fields.field "state_payload" (opt_text car.state_payload)
              (Fields.field "state_at" (opt_text car.state_at) Fields.end))))))

-- the snapshot in `logger_health`; the ids of the cars are distinct
unfoldable pub snapshot : List (String × CarObservation) → Fields
snapshot [] = Fields.end
snapshot ((id, car) ∷ rest) = Fields.field id (car_as_dict car) (snapshot rest)

pub record LoggerHealth : Type 0 where
  pub healthy : Option Bool
  pub stale : Bool
  pub car_id : Option String
  pub detail : String
  pub cars : Fields

-- a message that paho was asked to publish
pub record Message : Type 0 where
  pub topic : String
  pub payload : String
  pub retain : Bool
  pub qos : ℕ

-- The attributes of `WatchdogMqtt`, and what paho was asked to do.
pub record Mqtt : Type 0 where
  pub cars : List (String × CarObservation)
  pub connected : Bool
  pub connected_since : Option ℕ
  pub warned_no_messages : Bool
  pub published : List Message
  pub subscribed : List String

abbrev pub new_mqtt : Mqtt
new_mqtt = record {
  cars = [];
  connected = false;
  connected_since = none;
  warned_no_messages = false;
  published = [];
  subscribed = [];
}

abbrev pub new_car : String → CarObservation
new_car id = record {
  car_id = id;
  healthy_payload = none;
  healthy = none;
  healthy_monotonic = none;
  healthy_at = none;
  state_payload = none;
  state_monotonic = none;
  state_at = none;
}
