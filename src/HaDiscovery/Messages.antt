-- ===== src/HaDiscovery/Messages.antt =====
-- The messages of the discovery, and what a new connection to the broker publishes.
use mathlib.Core.List.{append_assoc, append-nil}
use teslamate_watchdog.Shared.{
  ℕ, String, ◌≡◌, sym, ◌∙◌, ap, Bool, true, false, some, List, [], ◌∷◌, ◌++◌, map, if◌then◌else◌,
}
use teslamate_watchdog.Shared.Json.{Json}
use teslamate_watchdog.Config.{Config, availability_topic}
use teslamate_watchdog.MqttClient.{
  Message, Mqtt, publish_raw, on_connect, subscriptions, payload_online,
}
use teslamate_watchdog.HaDiscovery.{
  Entity, build_entities, discovery_topic, publish_entities, publish,
}

module _ (c : Config) (dumps : Json → String) where
  -- the message of an entity
  abbrev pub discovery : Entity → Message
  discovery e = record {
    topic = discovery_topic c e;
    payload = dumps (Json.obj e.payload);
    retain = true;
    qos = 1;
  }

  abbrev pub announcements : List Message
  announcements = if c.ha_discovery_enabled then map discovery (build_entities c) else []

  publish_entities-messages :
      (es : List Entity) (m : Mqtt)
      → publish_entities c dumps publish_raw es m
        ≡ record m { published = m.published ++ map discovery es }
  unfolding publish_entities publish_raw
  publish_entities-messages [] m =
      ap (λ p. record m { published = p }) (sym (append-nil m.published))
  publish_entities-messages (e ∷ rest) m =
      publish_entities-messages rest
        (publish_raw (discovery_topic c e) (dumps (Json.obj e.payload)) true m)
      ∙ ap (λ p. record m { published = p })
          (append_assoc m.published (discovery e ∷ []) (map discovery rest))

  -- The discovery changes nothing but what is published.
  if-messages :
      (enabled : Bool) (m : Mqtt)
      → (if enabled then publish_entities c dumps publish_raw (build_entities c) m else m)
        ≡ record m {
          published = m.published ++ (if enabled then map discovery (build_entities c) else []);
        }
  if-messages true m = publish_entities-messages (build_entities c) m
  if-messages false m = ap (λ p. record m { published = p }) (sym (append-nil m.published))

  pub publish-messages :
      (m : Mqtt)
      → publish c dumps publish_raw m ≡ record m { published = m.published ++ announcements }
  unfolding publish
  publish-messages m = if-messages c.ha_discovery_enabled m

  abbrev pub online : Message
  online = record { topic = availability_topic c; payload = payload_online; retain = true; qos = 1 }

  -- A connection that the broker accepts publishes "online" and then, if the discovery is enabled,
  -- the configuration of every entity, in order and retained, and nothing else; it notes the time
  -- of the connection and subscribes to the car topics.
  pub on_connect-messages :
      (now : ℕ) (m : Mqtt)
      → on_connect c false now (publish c dumps publish_raw) m ≡ record m {
        connected = true;
        connected_since = some now;
        subscribed = m.subscribed ++ subscriptions c;
        published = m.published ++ online ∷ announcements;
      }
  unfolding on_connect publish_raw
  on_connect-messages now m =
      publish-messages _
      ∙ ap
          (λ p. record m {
            connected = true;
            connected_since = some now;
            subscribed = m.subscribed ++ subscriptions c;
            published = p;
          })
          (append_assoc m.published (online ∷ []) announcements)
