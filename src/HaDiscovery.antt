-- ===== src/HaDiscovery.antt =====
-- src/ha_discovery.py: the entities that Home Assistant discovers. Logging is left out.
pub mod Messages
pub mod Available
pub mod Served
use teslamate_watchdog.Shared.{String, Bool, true, List, [], ◌∷◌, if◌then◌else◌}
use teslamate_watchdog.Shared.Text.{fstring}
use teslamate_watchdog.Shared.Json.{Json, Items, Fields, put, merge}
use teslamate_watchdog.Config.{Config, topic, availability_topic}

abbrev pub version : String
version = "0.1.0"

abbrev pub node_id : String
node_id = "teslamate_watchdog"

abbrev pub tristate_template : String
tristate_template =
    "{% if value == 'true' %}ON{% elif value == 'false' %}OFF{% else %}None{% endif %}"

abbrev pub timestamp_template : String
timestamp_template = "{% if value %}{{ value }}{% else %}None{% endif %}"

-- the value of one key that holds a text
abbrev said : String → String → Fields → Fields
said key value rest = Fields.field key (Json.text value) rest

-- `_device`
abbrev pub device : Json
device = Json.obj (
    Fields.field "identifiers" (Json.arr (Items.cons (Json.text node_id) Items.nil)) (
      said "name" "TeslaMate Watchdog" (
        said "manufacturer" "teslamate-watchdog"
          (said "model" "TeslaMate Watchdog" (said "sw_version" version Fields.end)))))

abbrev pub entity_id : String → String
entity_id object_id = fstring (node_id ∷ "_" ∷ object_id ∷ [])

-- an entry of the list of entities
pub record Entity : Type 0 where
  pub component : String
  pub object_id : String
  pub payload : Fields

module _ (c : Config) where
  -- the keys that every payload begins with
  abbrev identity : String → String → Fields → Fields
  identity object_id name rest = said "name" name (
      said "unique_id" (entity_id object_id)
        (said "object_id" (entity_id object_id) (said "state_topic" (topic c object_id) rest)))

  -- `_binary_sensor`
  abbrev pub binary_sensor : String → String → String → Fields
  binary_sensor object_id name icon = identity object_id name (
      said "value_template" tristate_template
        (said "payload_on" "ON" (said "payload_off" "OFF" (said "icon" icon Fields.end))))

  -- `_timestamp_sensor`
  abbrev pub timestamp_sensor : String → String → String → Fields
  timestamp_sensor object_id name icon = identity object_id name (
      said "device_class" "timestamp"
        (said "value_template" timestamp_template (said "icon" icon Fields.end)))

  abbrev binary_entity : String → String → String → Entity
  binary_entity object_id name icon = record {
    component = "binary_sensor";
    object_id = object_id;
    payload = binary_sensor object_id name icon;
  }

  abbrev timestamp_entity : String → String → String → Entity
  timestamp_entity object_id name icon = record {
    component = "sensor";
    object_id = object_id;
    payload = timestamp_sensor object_id name icon;
  }

  -- the list that `build_entities` begins with
  unfoldable pub entities : List Entity
  entities =
      record {
        component = "sensor";
        object_id = "state";
        payload = identity "state" "State" (said "icon" "mdi:shield-search" Fields.end);
      }
      ∷ binary_entity "healthy" "Healthy" "mdi:heart-pulse"
      ∷ binary_entity "authenticated" "Authenticated" "mdi:key"
      ∷ binary_entity "database_healthy" "Database healthy" "mdi:database"
      ∷ binary_entity "logger_healthy" "Logger healthy" "mdi:car-connected"
      ∷ timestamp_entity "last_failure" "Last failure" "mdi:alert-circle-outline"
      ∷ timestamp_entity "last_restart" "Last restart" "mdi:restart"
      ∷ record {
        component = "sensor";
        object_id = "restart_count_24h";
        payload =
            identity "restart_count_24h" "Restarts in 24h"
              (said "state_class" "measurement" (said "icon" "mdi:counter" Fields.end));
      }
      ∷ []

  abbrev pub availability : Fields
  availability =
      said "availability_topic" (availability_topic c)
        (said "payload_available" "online" (said "payload_not_available" "offline" Fields.end))

  -- the loop of `build_entities`: `payload.update(availability)` and `payload["device"] = device`
  unfoldable pub completed : List Entity → List Entity
  completed [] = []
  completed (e ∷ rest) =
      record e { payload = put "device" device (merge e.payload availability) } ∷ completed rest

  -- `build_entities`
  unfoldable pub build_entities : List Entity
  unfolding completed entities
  build_entities = completed entities

  abbrev pub discovery_topic : Entity → String
  discovery_topic e = fstring (
      c.ha_discovery_prefix ∷ "/" ∷ e.component ∷ "/" ∷ node_id ∷ "/" ∷ e.object_id ∷ "/config"
      ∷ [])

  -- `publish`, with `json.dumps` and the callback `publish_raw`, which changes a client `M`
  module _ {ℓ} {M : Type ℓ} (dumps : Json → String)
      (publish_raw : String → String → Bool → M → M) where
    unfoldable pub publish_entities : List Entity → M → M
    publish_entities [] m = m
    publish_entities (e ∷ rest) m =
        publish_entities rest (publish_raw (discovery_topic e) (dumps (Json.obj e.payload)) true m)

    unfoldable pub publish : M → M
    unfolding publish_entities
    publish m = if c.ha_discovery_enabled then publish_entities build_entities m else m
