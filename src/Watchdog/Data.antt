-- ===== src/Watchdog/Data.antt =====
-- The data of src/main.py: the watchdog, and what the world outside answers in one cycle.
use teslamate_watchdog.Shared.{ℕ, String, Bool, true, false, Option, none, some}
use teslamate_watchdog.HttpCheck.{Got}
use teslamate_watchdog.DockerClient.{Proxy}
use teslamate_watchdog.MqttClient.{Mqtt}
use teslamate_watchdog.Recovery.{World, Outside}

abbrev pub payload_unset : String
payload_unset = "None"

abbrev pub auth_action_message : String
auth_action_message =
    "TeslaMate is signed out and is not recording drives. The watchdog did not restart it — either Tesla's auth host is unreachable (in which case a restart cannot re-authenticate and this should clear when the network recovers), or a restart was already tried and did not help. If it does not clear, generate fresh Tesla API tokens with a token app and paste them into the TeslaMate UI."

-- `_tristate`
unfoldable pub tristate : Option Bool → String
tristate none = "unknown"
tristate (some true) = "true"
tristate (some false) = "false"

-- The attributes of `Watchdog` that change, and the objects that it works on.
pub record Watchdog : Type 0 where
  pub world : World
  pub mqtt : Mqtt
  pub last_failure : String
  pub database_healthy_streak : ℕ

-- What the world outside answers in one cycle, call by call: the HTTP request with its duration,
-- the monotonic time at which the car topics are read, the proxy for each call of the Docker client
-- and for the restart, the connections to the database and to Tesla's host (an error, or none),
-- and the clock, also as texts.
pub record Cycle : Type 0 where
  pub http : Got
  pub elapsed_ms : ℕ
  pub checked_at : String
  pub read_at : ℕ
  pub status_proxy : Proxy
  pub database_proxy : Proxy
  pub logs_proxy : Proxy
  pub logs_at : ℕ
  pub database_connection : Option String
  pub auth_connection : Option String
  pub outside : Outside
  pub failure_iso : String
  pub check_iso : String
