-- ===== src/DockerClient/Api.antt =====
-- The data of src/docker_client.py, and what the socket proxy answers.
use teslamate_watchdog.Shared.{ℕ, String, Bool, Option, none, List}

abbrev pub restart_stop_timeout : ℕ
restart_stop_timeout = 30

abbrev pub restart_http_timeout : ℕ
restart_http_timeout = 90

pub record ContainerRef : Type 0 where
  pub id : String
  pub name : String
  pub compose_service : Option String

pub record ContainerStatus : Type 0 where
  pub exists : Bool
  pub running : Option Bool
  pub status : Option String
  pub health : Option String
  pub restart_count : Option ℕ
  pub oom_killed : Option Bool
  pub exit_code : Option ℕ
  pub started_at : Option String
  pub finished_at : Option String
  pub ref : Option ContainerRef
  pub error : Option String

-- `ContainerStatus(exists=exists, ref=ref, error=error)`
abbrev pub no_status : Bool → Option ContainerRef → Option String → ContainerStatus
no_status exists ref error = record {
  exists = exists;
  running = none;
  status = none;
  health = none;
  restart_count = none;
  oom_killed = none;
  exit_code = none;
  started_at = none;
  finished_at = none;
  ref = ref;
  error = error;
}

-- The answer to a GET: a `RequestException`, or a status code with a text and, as JSON, a value or
-- a `ValueError`.
pub data Body (A : Type 0) : Type 0 where
  decoded : A → Body A
  undecodable : String → Body A

pub data Reply (A : Type 0) : Type 0 where
  failed : String → Reply A
  answered : ℕ → String → Body A → Reply A

-- What a GET returns, or the text of the `DockerUnavailable` or `ValueError` that is raised.
pub data Fetched (A : Type 0) : Type 0 where
  ok : A → Fetched A
  unavailable : String → Fetched A

-- an entry of the list of containers
pub record Listed : Type 0 where
  pub id : Option String
  pub names : List String
  pub service : Option String

-- the `State` of an inspected container
pub record ContainerState : Type 0 where
  pub running : Option Bool
  pub status : Option String
  pub health : Option String
  pub oom_killed : Option Bool
  pub exit_code : Option ℕ
  pub started_at : Option String
  pub finished_at : Option String

pub record Inspected : Type 0 where
  pub state : Option ContainerState
  pub restart_count : Option ℕ

-- the outcome of a POST
pub data Post : Type 0 where
  timed_out : Post
  post_failed : String → Post
  responded : ℕ → String → Post

-- What the proxy answers during one call of a method.
pub record Proxy : Type 0 where
  pub containers : Reply (List Listed)
  pub inspect : String → Reply Inspected
  -- the logs of a container, since a time in seconds
  pub logs_reply : String → ℕ → Reply (List ℕ)
  pub restart_reply : String → Post
