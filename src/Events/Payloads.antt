-- ===== src/Events/Payloads.antt =====
-- What an event is on the wire: the `as_dict` methods of src/state_machine.py, src/http_check.py and
-- src/diagnostics.py, the payloads that src/main.py and src/recovery.py publish, and `publish_event`
-- of src/mqtt_client.py. The keys of an observation's log categories are distinct.
use teslamate_watchdog.Shared.{ℕ, String, false, Option, none, some, List, [], ◌∷◌}
use teslamate_watchdog.Shared.Json.{Json, Fields, merge, opt_text, opt_num, opt_bool}
use teslamate_watchdog.Config.{Config, event_topic}
use teslamate_watchdog.HttpCheck.{HttpCategory, HttpResult}
use teslamate_watchdog.StateMachine.{
  State, healthy, manual_intervention_required, LogSignals, Observation,
}
use teslamate_watchdog.StateMachine.States.{value}
use teslamate_watchdog.MqttClient.{Mqtt, publish_raw}
use teslamate_watchdog.Events.{Failure, Incident, Event}

-- `category.value`
abbrev pub category_value : HttpCategory → String
category_value HttpCategory.authenticated = "authenticated"
category_value HttpCategory.logged_out = "logged_out"
category_value HttpCategory.unreachable = "unreachable"
category_value HttpCategory.application_error = "application_error"
category_value HttpCategory.unknown = "unknown"

-- `HttpResult.as_dict`
abbrev pub http_as_dict : HttpResult → Fields
http_as_dict r = Fields.field "category" (Json.text (category_value r.category)) (
    Fields.field "status_code" (opt_num r.status_code) (
      Fields.field "redirect_target" (opt_text r.redirect_target) (
        Fields.field "elapsed_ms" (opt_num r.elapsed_ms) (
          Fields.field "error" (opt_text r.error) (
            Fields.field "detail" (opt_text r.detail)
              (Fields.field "checked_at" (Json.text r.checked_at) Fields.end))))))

abbrev counts_as_dict : List (String × ℕ) → Fields
counts_as_dict [] = Fields.end
counts_as_dict ((category, count) ∷ rest) =
    Fields.field category (Json.num count) (counts_as_dict rest)

-- the log signals of `Observation.as_dict`
abbrev pub signals_as_dict : Option LogSignals → Json
signals_as_dict none = Json.null
signals_as_dict (some s) = Json.obj (
    Fields.field "auth_refresh_failing" (Json.bool s.auth_refresh_failing) (
      Fields.field "auth_lost" (Json.bool s.auth_lost) (
        Fields.field "database_failure" (Json.bool s.database_failure) (
          Fields.field "token_decryption_failure" (Json.bool s.token_decryption_failure)
            (Fields.field "matches" (Json.obj (counts_as_dict s.matches)) Fields.end)))))

-- `Observation.as_dict`
abbrev pub observation_as_dict : Observation → Fields
observation_as_dict o = Fields.field "http" (Json.obj (http_as_dict o.http)) (
    Fields.field "logger_healthy" (opt_bool o.logger_healthy) (
      Fields.field "logger_stale" (Json.bool o.logger_stale) (
        Fields.field "logger_detail" (Json.text o.logger_detail) (
          Fields.field "database_healthy" (opt_bool o.database_healthy) (
            Fields.field "teslamate_container_running" (opt_bool o.teslamate_container_running)
              (Fields.field "log_signals" (signals_as_dict o.log_signals) Fields.end))))))

-- `Incident.as_dict`
abbrev pub incident_as_dict : Incident → Fields
incident_as_dict i =
    Fields.field "directory" (Json.text i.directory)
      (Fields.field "summary" (Json.text i.summary) Fields.end)

-- the `base` of `_on_transition`, before other keys
abbrev base : Failure → Fields → Fields
base f rest = Fields.field "state" (Json.text (value f.state)) (
    Fields.field "previous_state" (Json.text (value f.previous_state)) (
      Fields.field "reason" (Json.text f.reason)
        (Fields.field "observation" (Json.obj (observation_as_dict f.observation)) rest)))

abbrev said : String → String → Fields → Fields
said key s rest = Fields.field key (Json.text s) rest

-- the two shapes of the payload that asks for manual intervention
abbrev pub intervention : Option State → String → String → Option ℕ → Fields
intervention (some from) reason action (some restarts) =
    said "state" (value manual_intervention_required) (
      said "recovered_from" (value from) (
        said "reason" reason (
          said "action_required" action
            (Fields.field "restart_count_24h" (Json.num restarts) Fields.end))))
intervention _ reason action _ =
    said "state" (value manual_intervention_required)
      (said "reason" reason (said "action_required" action Fields.end))

-- the first argument of `publish_event`
abbrev pub event_type : Event → String
event_type (Event.failure_detected _) = "failure_detected"
event_type (Event.authentication_required _ _ _) = "authentication_required"
event_type (Event.database_unhealthy _ _) = "database_unhealthy"
event_type (Event.diagnostics_captured _ _ _) = "diagnostics_captured"
event_type (Event.recovery_started _ _ _ _) = "recovery_started"
event_type (Event.restart_executed _ _ _ _) = "restart_executed"
event_type (Event.recovered _ _ _) = "recovered"
event_type (Event.manual_intervention_required _ _ _ _) = "manual_intervention_required"

-- the second argument of `publish_event`
abbrev pub event_payload : Event → Fields
event_payload (Event.failure_detected f) = base f Fields.end
event_payload (Event.authentication_required f action url) = base f (
    said "action_required" action
      (said "teslamate_url" url (Fields.field "auto_restart" (Json.bool false) Fields.end)))
event_payload (Event.database_unhealthy f action) =
    base f (said "action_required" action Fields.end)
event_payload (Event.diagnostics_captured s reason i) =
    merge (said "state" (value s) (said "reason" reason Fields.end)) (incident_as_dict i)
event_payload (Event.recovery_started s reason container wait) = said "state" (value s) (
    said "reason" reason
      (said "container" container (Fields.field "wait_seconds" (Json.num wait) Fields.end)))
event_payload (Event.restart_executed s success detail container) = said "state" (value s) (
    Fields.field "success" (Json.bool success)
      (said "detail" detail (said "container" container Fields.end)))
event_payload (Event.recovered from reason restarts) = said "state" (value healthy) (
    said "recovered_from" (value from)
      (said "reason" reason (Fields.field "restart_count_24h" (Json.num restarts) Fields.end)))
event_payload (Event.manual_intervention_required from reason action restarts) =
    intervention from reason action restarts

-- the body of `publish_event`
abbrev pub event_body : String → String → Fields → Fields
event_body kind timestamp payload =
    merge (said "event" kind (said "timestamp" timestamp Fields.end)) payload

-- `publish_event`
unfoldable pub publish_event : Config → (Json → String) → String → String → Fields → Mqtt → Mqtt
unfolding publish_raw
publish_event c dumps timestamp kind payload m =
    publish_raw (event_topic c) (dumps (Json.obj (event_body kind timestamp payload))) false m
