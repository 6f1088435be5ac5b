-- ===== src/HaDiscovery/Served.antt =====
-- What is discovered is what the program publishes: state topics, availability, and what a new
-- connection says.
use teslamate_watchdog.Shared.{
  String, ◌≡◌, refl, ◌∙◌, ap, Bool, true, false, Option, none, some, List, All, map, if◌then◌else◌,
  ◌⊎◌, inl, inr,
}
use teslamate_watchdog.Shared.Json.{Json, get}
use teslamate_watchdog.Python.{Python}
use teslamate_watchdog.Config.{Config, topic}
use teslamate_watchdog.StateMachine.{Observation}
use teslamate_watchdog.StateMachine.States.{is, healthy}
use teslamate_watchdog.MqttClient.{Message}
use teslamate_watchdog.MqttClient.Retained.{
  retained, retained-append, last_value, or_else, state_message, retained-state_message,
}
use teslamate_watchdog.LogClassifier.{Classifier}
use teslamate_watchdog.Watchdog.{Watchdog, Cycle, tristate, session, status_values, publish_status}
use teslamate_watchdog.Watchdog.Topics.{published-publish_all}
use teslamate_watchdog.HaDiscovery.{Entity, entities, completed, build_entities}

-- A payload that the template of a binary sensor reads.
abbrev pub IsTristate : String → Type 0
IsTristate s = (s ≡ "true") ⊎ (s ≡ "false") ⊎ (s ≡ "unknown")

tristate-IsTristate : (b : Option Bool) → IsTristate (tristate b)
unfolding tristate
tristate-IsTristate none = inr (inr refl)
tristate-IsTristate (some true) = inl refl
tristate-IsTristate (some false) = inr (inl refl)

if-IsTristate : (b : Bool) → IsTristate (if b then "true" else "false")
if-IsTristate true = inl refl
if-IsTristate false = inr (inl refl)

-- The messages have a last retained payload for the entity, on the topic that Home Assistant is
-- told to read, and one that a binary sensor can read.
pub record IsServed (messages : List Message) (e : Entity) : Type 0 where
  pub state_topic : String
  pub state_payload : String
  pub told : get "state_topic" e.payload ≡ some (Json.text state_topic)
  pub kept : retained state_topic messages ≡ some state_payload
  pub readable : e.component ≡ "binary_sensor" → IsTristate state_payload

module _ (py : Python) (search : String → Bool) (k : Classifier) (c : Config) where
  pub kept-status :
      (env : Cycle) (o : Observation) (d : Watchdog) (key : String)
      → retained (topic c key) (publish_status py search k c env o d).mqtt.published
        ≡ or_else
            (last_value key (status_values py search k c env o d))
            (retained (topic c key) d.mqtt.published)
  unfolding publish_status
  kept-status env o d key =
      let values = status_values py search k c env o d in
      ap (retained (topic c key)) (published-publish_all py search k c values d.mqtt)
      ∙ retained-append (topic c key) d.mqtt.published (map (state_message c) values)
      ∙ ap (λ v. or_else v (retained (topic c key) d.mqtt.published))
          (retained-state_message c key values)

  served :
      (env : Cycle) (o : Observation) (d : Watchdog) (e : Entity) (key payload : String)
      → get "state_topic" e.payload ≡ some (Json.text (topic c key))
      → last_value key (status_values py search k c env o d) ≡ some payload
      → (e.component ≡ "binary_sensor" → IsTristate payload)
      → IsServed (publish_status py search k c env o d).mqtt.published e
  served env o d e key payload told value readable = record {
    state_topic = topic c key;
    state_payload = payload;
    told = told;
    kept =
        kept-status env o d key
        ∙ ap (λ v. or_else v (retained (topic c key) d.mqtt.published)) value;
    readable = readable;
  }

  not_binary : {p : String} → ◌≡◌ {A = String} "sensor" "binary_sensor" → IsTristate p
  not_binary e = absurd (cc e)

  -- After the status of a cycle is published, there is a last retained message for every
  -- discovered entity on the topic that its configuration names, and for a binary sensor its
  -- payload is "true", "false" or "unknown", which its template reads.
  pub build_entities-IsServed :
      (env : Cycle) (o : Observation) (d : Watchdog)
      → All (IsServed (publish_status py search k c env o d).mqtt.published) (build_entities c)
  unfolding build_entities entities completed status_values
  build_entities-IsServed env o d = (
    served env o d _ "state" _ refl refl not_binary,
    (
      served env o d _ "healthy" _ refl refl
          (λ _. if-IsTristate (is d.world.machine.state healthy)),
      (
        served env o d _ "authenticated" _ refl refl
            (λ _. tristate-IsTristate (session py search k c o.http.category)),
        (
          served env o d _ "database_healthy" _ refl refl
              (λ _. tristate-IsTristate o.database_healthy),
          (
            served env o d _ "logger_healthy" _ refl refl
                (λ _. tristate-IsTristate o.logger_healthy),
            (
              served env o d _ "last_failure" _ refl refl not_binary,
              (
                served env o d _ "last_restart" _ refl refl not_binary,
                (served env o d _ "restart_count_24h" _ refl refl not_binary, tt),
              ),
            ),
          ),
        ),
      ),
    ),
  )
