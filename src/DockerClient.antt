-- ===== src/DockerClient.antt =====
-- src/docker_client.py: containers through the socket proxy. What the proxy, the network and the
-- clock answer are arguments; a call that raises is a value.
mod Api
pub mod Database
pub mod Target
pub mod Logs
pub use Api.*
use teslamate_watchdog.Shared.{
  ℕ, String, Bool, true, false, not, ◌&&◌, ◌||◌, Option, none, some, List, [], ◌∷◌, map, ◌==◌, leb,
  str_eq, opt_eq, any, is_some, is_false, or_default, if◌then◌else◌,
}
use teslamate_watchdog.Shared.Text.{fstring, str, show_opt, repr_opt, take_chars, lstrip_slashes}
use teslamate_watchdog.Config.{Config}

-- `ContainerRef.matches`
unfoldable pub matches : ContainerRef → String → Bool
matches ref configured = str_eq ref.name configured || opt_eq ref.compose_service configured

-- `_get(path)`, and `.json()` on its response
unfoldable pub get_json : {A : Type 0} → String → Reply A → Fetched A
get_json path (failed text) = unavailable text
get_json path (answered code text body) =
    if leb 400 code
    then unavailable (fstring ("GET " ∷ path ∷ " -> " ∷ str code ∷ " " ∷ take_chars 200 text ∷ []))
    else elim body [ decoded a ↦ ok a | undecodable error ↦ unavailable error ]

-- `ping`, on the reply to the list of containers
unfoldable pub ping : {A : Type 0} → Reply A → Bool
ping (failed text) = false
ping (answered code text body) = not (leb 400 code)

abbrev first_name : List String → String
first_name [] = ""
first_name (n ∷ _) = n

unfoldable pub to_ref : Listed → ContainerRef
to_ref entry = record {
  id = or_default entry.id "";
  name = first_name (map lstrip_slashes entry.names);
  compose_service = entry.service;
}

-- `configured in names`
unfoldable pub is_named : String → Listed → Bool
is_named configured entry = any (str_eq configured) (map lstrip_slashes entry.names)

-- The loop of `resolve` over the entries, with `by_label`.
unfoldable pub resolve_from : String → Option ContainerRef → List Listed → Option ContainerRef
resolve_from configured by_label [] = by_label
resolve_from configured by_label (entry ∷ rest) =
    let others =
      resolve_from configured
        (if opt_eq entry.service configured && not (is_some by_label)
          then some (to_ref entry)
          else by_label)
        rest in
    if is_named configured entry then some (to_ref entry) else others

-- `DockerClient.resolve`
unfoldable pub resolve : Proxy → String → Option ContainerRef
resolve proxy configured = elim (get_json "/containers/json" proxy.containers) [
  | ok entries ↦ resolve_from configured none entries
  | unavailable error ↦ none
]

abbrev empty_state : ContainerState
empty_state = record {
  running = none;
  status = none;
  health = none;
  oom_killed = none;
  exit_code = none;
  started_at = none;
  finished_at = none;
}

unfoldable pub to_status : ContainerRef → Inspected → ContainerStatus
to_status ref seen =
    let state = or_default seen.state empty_state in
    record {
      exists = true;
      running = some (or_default state.running false);
      status = state.status;
      health = state.health;
      restart_count = seen.restart_count;
      oom_killed = some (or_default state.oom_killed false);
      exit_code = state.exit_code;
      started_at = state.started_at;
      finished_at = state.finished_at;
      ref = some ref;
      error = none;
    }

-- `DockerClient.status`
unfoldable pub status : Proxy → String → ContainerStatus
unfolding to_status
status proxy configured = elim (resolve proxy configured) [
  | none ↦ no_status false none (some (fstring ("no container matching '" ∷ configured ∷ "'" ∷ [])))
  | some ref ↦
      elim (get_json (fstring ("/containers/" ∷ ref.id ∷ "/json" ∷ [])) (proxy.inspect ref.id)) [
        | ok seen ↦ to_status ref seen
        | unavailable error ↦ no_status true (some ref) (some error)
      ]
]

-- What `restart` did: the containers that a POST asked to restart, and `(ok, detail)`.
pub record Restarted : Type 0 where
  pub posted : List String
  pub succeeded : Bool
  pub detail : String

abbrev refused : String → Restarted
refused detail = record { posted = []; succeeded = false; detail = detail }

-- the handling of the response to the POST
unfoldable pub post_result : ContainerRef → Post → Restarted
post_result ref timed_out = record {
  posted = ref.id ∷ [];
  succeeded = false;
  detail = fstring (
      "restart did not complete within "
      ∷ str restart_http_timeout
      ∷ "s; it may still be in progress. Check the container before retrying."
      ∷ []);
}
post_result ref (post_failed error) = record {
  posted = ref.id ∷ [];
  succeeded = false;
  detail = error;
}
post_result ref (responded code text) = record {
  posted = ref.id ∷ [];
  succeeded = code == 204 || code == 304;
  detail =
      if code == 204 || code == 304
      then fstring ("restarted " ∷ ref.name ∷ " (" ∷ take_chars 12 ref.id ∷ ")" ∷ [])
      else if code == 403
      then "socket proxy denied the restart (403) — the proxy needs POST=1 as well as CONTAINERS=1. ALLOW_RESTARTS on its own is not sufficient; see the security section of the README."
      else fstring ("restart returned " ∷ str code ∷ ": " ∷ take_chars 200 text ∷ []);
}

-- the checks on what was resolved, and the POST
unfoldable pub restart_ref : Config → Proxy → ContainerRef → Restarted
unfolding matches
restart_ref c proxy ref =
    if not (matches ref c.teslamate_container)
    then refused (
        fstring (
          "resolved container '"
          ∷ ref.name
          ∷ "' (service "
          ∷ repr_opt ref.compose_service
          ∷ ") does not match '"
          ∷ c.teslamate_container
          ∷ "'"
          ∷ []))
    else if str_eq ref.name c.database_container || opt_eq ref.compose_service c.database_container
    then refused (
        fstring
          ("refusing to restart the database container ('" ∷ c.database_container ∷ "')" ∷ []))
    else post_result ref (proxy.restart_reply ref.id)

-- `DockerClient.restart`
unfoldable pub restart : Config → Proxy → String → Restarted
restart c proxy configured =
    if not (str_eq configured c.teslamate_container)
    then refused (
        fstring (
          "refusing to restart '" ∷ configured ∷ "': only the configured TeslaMate container ('"
          ∷ c.teslamate_container ∷ "') may be restarted" ∷ []))
    else elim (resolve proxy configured) [
      | none ↦ refused (fstring ("no container matching '" ∷ configured ∷ "'" ∷ []))
      | some ref ↦ restart_ref c proxy ref
    ]
