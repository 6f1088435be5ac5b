-- ===== src/MqttClient.antt =====
-- src/mqtt_client.py: the car topics and what they say of the vehicle logger. Times are monotonic,
-- in microseconds. paho's client is outside: what it is asked to publish and to subscribe to is
-- collected in order.
mod Cars
pub mod Staleness
pub mod Retained
pub mod Connection
pub use Cars.*
use teslamate_watchdog.Shared.{
  ℕ, ◌-◌, ◌/◌, max, String, Bool, true, false, not, ◌&&◌, ◌||◌, Option, none, some, List, [], ◌∷◌,
  ◌++◌, leb, ltb, str_eq, is_false, is_some, or_default, if◌then◌else◌,
}
use teslamate_watchdog.Shared.Text.{fstring, str}
use teslamate_watchdog.Shared.Strings.{split_at, non_empty, strip, ends_with, is_one_of}
use teslamate_watchdog.Config.{Config, topic, availability_topic, car_id_from_topic}
use teslamate_watchdog.RestartManager.{seconds}

-- `publish_raw`
unfoldable pub publish_raw : String → String → Bool → Mqtt → Mqtt
publish_raw t p retain m = record m {
  published = m.published ++ record { topic = t; payload = p; retain = retain; qos = 1 } ∷ [];
}

-- `publish_state`
unfoldable pub publish_state : Config → String → String → Mqtt → Mqtt
unfolding publish_raw
publish_state c suffix payload m = publish_raw (topic c suffix) payload true m

-- the subscriptions of `_on_connect`
abbrev pub subscriptions : Config → List String
subscriptions c = elim c.topics.state_filter [
  | none ↦ c.topics.health_filter ∷ []
  | some f ↦ c.topics.health_filter ∷ f ∷ []
]

-- `_on_connect`, up to the hooks, which publish what `hooks` adds
unfoldable pub on_connect : Config → Bool → ℕ → (Mqtt → Mqtt) → Mqtt → Mqtt
unfolding publish_raw
on_connect c refused now hooks m =
    if refused
    then m
    else hooks (
        publish_raw (availability_topic c) payload_online true (record m {
          connected = true;
          connected_since = some now;
          subscribed = m.subscribed ++ subscriptions c;
        }))

-- `_on_disconnect`
unfoldable pub on_disconnect : Mqtt → Mqtt
on_disconnect m = record m { connected = false; connected_since = none }

-- `stop`: the goodbye, if there is a connection to say it on
unfoldable pub stop : Config → Mqtt → Mqtt
unfolding publish_raw
stop c m = if m.connected then publish_raw (availability_topic c) payload_offline true m else m

-- `dict.get`
unfoldable pub get_car : String → List (String × CarObservation) → Option CarObservation
get_car id [] = none
get_car id ((i, car) ∷ rest) = if str_eq i id then some car else get_car id rest

-- `setdefault(id, CarObservation(car_id=id))`, and a change of the car that it returns
unfoldable pub update_car :
    String
    → (CarObservation → CarObservation)
    → List (String × CarObservation)
    → List (String × CarObservation)
update_car id f [] = (id, f (new_car id)) ∷ []
update_car id f ((i, car) ∷ rest) =
    if str_eq i id then (i, f car) ∷ rest else (i, car) ∷ update_car id f rest

-- The first car that reports unhealthy.
unfoldable pub first_unhealthy : List (String × CarObservation) → Option CarObservation
first_unhealthy [] = none
first_unhealthy ((_, car) ∷ rest) =
    let others = first_unhealthy rest in if is_false car.healthy then some car else others

-- the selection by the fallback of `logger_health`
unfoldable pub fallback_car : CarObservation → List (String × CarObservation) → CarObservation
fallback_car first cars = or_default (first_unhealthy cars) first

-- The car that `logger_health` reports on, of a dict with the first car `first`.
unfoldable pub select_car :
    Option String → CarObservation → List (String × CarObservation) → CarObservation
select_car none first cars = fallback_car first cars
select_car (some id) first cars = or_default (get_car id cars) (fallback_car first cars)

abbrev show_healthy : Option Bool → String
show_healthy none = "None"
show_healthy (some true) = "True"
show_healthy (some false) = "False"

-- `str.lower` is Python's: a parameter.
module _ (lower : String → String) where
  -- `parse_bool_payload`
  unfoldable pub parse_bool_payload : Option String → Option Bool
  parse_bool_payload none = none
  parse_bool_payload (some payload) =
      let normalised = lower (strip payload) in
      if is_one_of normalised true_payloads
      then some true
      else if is_one_of normalised false_payloads
      then some false
      else none

  -- what `_on_message` writes into the car of the message's topic
  unfoldable pub note_message : String → String → ℕ → String → CarObservation → CarObservation
  note_message t payload now wall car =
      if ends_with "/healthy" t
      then record car {
        healthy_payload = some payload;
        healthy = parse_bool_payload (some payload);
        healthy_monotonic = some now;
        healthy_at = some wall;
      }
      else if ends_with "/state" t
      then record car {
        state_payload = some payload;
        state_monotonic = some now;
        state_at = some wall;
      }
      else car

  -- `_on_message`, on a payload that is decoded: decoding with replacement does not fail
  unfoldable pub on_message : String → String → ℕ → String → Mqtt → Mqtt
  on_message t decoded now wall m = record m {
    cars = update_car (car_id_from_topic t) (note_message t (strip decoded) now wall) m.cars;
  }

  -- the limit on the gap between heartbeats, for the state that the car was last in
  unfoldable pub stale_limit : Config → CarObservation → ℕ
  stale_limit c car =
      if is_one_of (lower (strip (or_default car.state_payload ""))) active_car_states
      then c.mqtt_stale_seconds
      else c.mqtt_parked_stale_seconds

  stale_text : Config → CarObservation → ℕ → String
  unfolding stale_limit
  stale_text c car age =
      let described = or_default car.state_payload "" in
      fstring (
        "car "
        ∷ car.car_id
        ∷ " is "
        ∷ (if str_eq described "" then "in an unknown state" else described)
        ∷ " but 'healthy' has been silent for "
        ∷ str (age / 1000000)
        ∷ "s (limit "
        ∷ str (stale_limit c car)
        ∷ "s)"
        ∷ [])

  -- `_staleness`: the verdict, and its text. A heartbeat or a connection that is later than `now`
  -- has an age of 0 here and a negative one there; neither is over a limit.
  unfoldable pub staleness : Config → Mqtt → CarObservation → ℕ → Option String
  unfolding stale_text
  staleness c m car now =
      if not c.staleness_detection_enabled then none else elim car.healthy_monotonic [
        | none ↦ none
        | some heard ↦ elim m.connected_since [
          | none ↦ none
          | some since ↦
              let age = now - max heard since in
              if leb age (seconds (stale_limit c car)) then none else some (stale_text c car age)
        ]
      ]

  -- `_warn_if_persistently_silent`
  unfoldable pub warn_if_silent : Config → ℕ → Mqtt → Mqtt
  warn_if_silent c now m = elim m.connected_since [
    | none ↦ m
    | some since ↦
        if m.warned_no_messages || ltb (now - since) (seconds c.mqtt_parked_stale_seconds)
        then m
        else record m { warned_no_messages = true }
  ]

  -- the verdict on the selected car
  unfoldable pub car_health : Config → Mqtt → CarObservation → ℕ → LoggerHealth
  car_health c m car now =
      let stale = staleness c m car now in
      record {
        healthy = car.healthy;
        stale = is_some stale;
        car_id = some car.car_id;
        detail =
            or_default stale
              (fstring ("car " ∷ car.car_id ∷ " healthy=" ∷ show_healthy car.healthy ∷ []));
        cars = snapshot m.cars;
      }

  -- `logger_health`
  unfoldable pub logger_health : Config → ℕ → Mqtt → Mqtt × LoggerHealth
  logger_health c now m = elim m.cars [
    | [] ↦ (
      warn_if_silent c now m,
      record {
        healthy = none;
        stale = false;
        car_id = none;
        detail = "no car messages received yet";
        cars = snapshot m.cars;
      },
    )
    | (i, car) ∷ rest ↦
        (m, car_health c m (select_car c.topics.primary_car_id car ((i, car) ∷ rest)) now)
  ]
