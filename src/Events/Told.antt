-- ===== src/Events/Told.antt =====
-- What every event says on the wire, and that it is not retained.
use teslamate_watchdog.Shared.{ℕ, String, ◌≡◌, refl, false, Option, none, some, [], ◌∷◌, ◌++◌}
use teslamate_watchdog.Shared.Json.{Json, Fields, get}
use teslamate_watchdog.Config.{Config, event_topic}
use teslamate_watchdog.StateMachine.{State, healthy, manual_intervention_required}
use teslamate_watchdog.StateMachine.States.{value}
use teslamate_watchdog.MqttClient.{Mqtt, publish_raw}
use teslamate_watchdog.MqttClient.Retained.{retained, retained-append}
use teslamate_watchdog.Events.{Event}
use teslamate_watchdog.Events.Payloads.{
  event_type, event_payload, event_body, publish_event, intervention,
}

-- the state that an event is about
abbrev pub subject : Event → State
subject (Event.failure_detected f) = f.state
subject (Event.authentication_required f _ _) = f.state
subject (Event.database_unhealthy f _) = f.state
subject (Event.diagnostics_captured s _ _) = s
subject (Event.recovery_started s _ _ _) = s
subject (Event.restart_executed s _ _ _) = s
subject (Event.recovered _ _ _) = healthy
subject (Event.manual_intervention_required _ _ _ _) = manual_intervention_required

-- The body names the event, its time and its state.
pub record IsTold (timestamp : String) (e : Event) (body : Fields) : Type 0 where
  pub kind : get "event" body ≡ some (Json.text (event_type e))
  pub time : get "timestamp" body ≡ some (Json.text timestamp)
  pub state : get "state" body ≡ some (Json.text (value (subject e)))

intervention-IsTold :
    (timestamp : String) (from : Option State) (reason action : String) (restarts : Option ℕ)
    → IsTold timestamp (Event.manual_intervention_required from reason action restarts) (
        event_body "manual_intervention_required" timestamp
          (intervention from reason action restarts))
intervention-IsTold timestamp none reason action restarts = record {
  kind = refl;
  time = refl;
  state = refl;
}
intervention-IsTold timestamp (some from) reason action none = record {
  kind = refl;
  time = refl;
  state = refl;
}
intervention-IsTold timestamp (some from) reason action (some n) = record {
  kind = refl;
  time = refl;
  state = refl;
}

body-IsTold :
    (timestamp : String) (e : Event)
    → IsTold timestamp e (event_body (event_type e) timestamp (event_payload e))
body-IsTold timestamp (Event.failure_detected f) = record { kind = refl; time = refl; state = refl }
body-IsTold timestamp (Event.authentication_required f a u) = record {
  kind = refl;
  time = refl;
  state = refl;
}
body-IsTold timestamp (Event.database_unhealthy f a) = record {
  kind = refl;
  time = refl;
  state = refl;
}
body-IsTold timestamp (Event.diagnostics_captured s r i) = record {
  kind = refl;
  time = refl;
  state = refl;
}
body-IsTold timestamp (Event.recovery_started s r c w) = record {
  kind = refl;
  time = refl;
  state = refl;
}
body-IsTold timestamp (Event.restart_executed s b d c) = record {
  kind = refl;
  time = refl;
  state = refl;
}
body-IsTold timestamp (Event.recovered s r n) = record { kind = refl; time = refl; state = refl }
body-IsTold timestamp (Event.manual_intervention_required s r a n) =
    intervention-IsTold timestamp s r a n

-- An event is published once, not retained, on the event topic; its body names the kind, the time
-- and the state of the event, and no last retained message changes.
pub publish_event-IsTold :
    (c : Config) (dumps : Json → String) (timestamp : String) (e : Event) (m : Mqtt)
    → (body : Fields) × IsTold timestamp e body
      × ((publish_event c dumps timestamp (event_type e) (event_payload e) m).published
          ≡ m.published
            ++ record {
              topic = event_topic c;
              payload = dumps (Json.obj body);
              retain = false;
              qos = 1;
            }
              ∷ [])
      × ((t : String)
          → retained t
              (publish_event c dumps timestamp (event_type e) (event_payload e) m).published
            ≡ retained t m.published)
unfolding publish_event publish_raw
publish_event-IsTold c dumps timestamp e m = (
  event_body (event_type e) timestamp (event_payload e),
  body-IsTold timestamp e,
  refl,
  λ t. retained-append t m.published _,
)
