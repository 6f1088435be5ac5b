-- ===== src/DockerClient/Database.antt =====
-- `check_database` and `tcp_probe` of src/docker_client.py.
use teslamate_watchdog.Shared.{
  ℕ, String, Bool, true, false, not, Option, none, some, [], ◌∷◌, str_eq, is_false, or_default,
  if◌then◌else◌,
}
use teslamate_watchdog.Shared.Text.{fstring, str, show_opt}
use teslamate_watchdog.Config.{Config}
use teslamate_watchdog.DockerClient.{Proxy, ContainerStatus, status}

pub record DatabaseHealth : Type 0 where
  pub healthy : Option Bool
  pub source : String
  pub detail : String
  pub status : ContainerStatus

-- `tcp_probe`: the outcome of the connection is none, or the text of an `OSError`.
unfoldable pub tcp_probe : String → ℕ → Option String → Bool × String
tcp_probe host port none =
    (true, fstring ("tcp connect to " ∷ host ∷ ":" ∷ str port ∷ " succeeded" ∷ []))
tcp_probe host port (some error) =
    (false, fstring ("tcp connect to " ∷ host ∷ ":" ∷ str port ∷ " failed: " ∷ error ∷ []))

-- `check_database` on a container that exists and runs
unfoldable pub running_database : Config → Option String → ContainerStatus → DatabaseHealth
unfolding tcp_probe
running_database c connection st = elim st.health [
  | some health ↦
      if str_eq health "healthy"
      then record {
        healthy = some true;
        source = "healthcheck";
        detail = "docker healthcheck healthy";
        status = st;
      }
      else if str_eq health "starting"
      then record {
        healthy = none;
        source = "healthcheck";
        detail = "docker healthcheck starting";
        status = st;
      }
      else record {
        healthy = some false;
        source = "healthcheck";
        detail = fstring ("docker healthcheck " ∷ health ∷ []);
        status = st;
      }
  | none ↦
      let (reachable, detail) = tcp_probe c.database_host c.database_port connection in
      record { healthy = some reachable; source = "tcp"; detail = detail; status = st }
]

-- `check_database`: the connection is tried only where no healthcheck gives a verdict.
unfoldable pub check_database : Config → Proxy → Option String → DatabaseHealth
unfolding running_database
check_database c proxy connection =
    let st = status proxy c.database_container in
    if not st.exists
    then record {
      healthy = none;
      source = "docker";
      detail = or_default st.error "database container not found";
      status = st;
    }
    else if is_false st.running
    then record {
      healthy = some false;
      source = "docker";
      detail = fstring ("container not running (status=" ∷ show_opt st.status ∷ ")" ∷ []);
      status = st;
    }
    else running_database c connection st
