-- ===== src/Events.antt =====
-- The events that the program publishes on its event topic, with the fields of their payloads
-- (`publish_event` adds the name and a timestamp), and the incident bundles that it has written.
pub mod Payloads
pub mod Told
use teslamate_watchdog.Shared.{ℕ, String, Bool, Option}
use teslamate_watchdog.StateMachine.{State, Observation}

-- the `base` payload of src/main.py
pub record Failure : Type 0 where
  pub state : State
  pub previous_state : State
  pub reason : String
  pub observation : Observation

-- `Incident` of src/diagnostics.py
pub record Incident : Type 0 where
  pub directory : String
  pub summary : String

pub data Event : Type 0 where
  failure_detected : Failure → Event
  -- the action required and the URL of TeslaMate
  authentication_required : Failure → String → String → Event
  database_unhealthy : Failure → String → Event
  diagnostics_captured : State → String → Incident → Event
  -- state, reason, container, wait in seconds
  recovery_started : State → String → String → ℕ → Event
  -- state, success, detail, container
  restart_executed : State → Bool → String → String → Event
  -- the state recovered from, the reason, the restarts in 24 hours
  recovered : State → String → ℕ → Event
  -- the state recovered from, the reason, the action required, the restarts in 24 hours
  manual_intervention_required : Option State → String → String → Option ℕ → Event

-- What `capture` hands to the writer of incident bundles.
pub record Bundle : Type 0 where
  pub state : State
  pub reason : String
  pub observation : Observation
  pub restart_count_24h : ℕ
  pub last_restart : Option String
  pub restart_attempted : Bool
  pub teslamate_log : String
  pub database_log : String
