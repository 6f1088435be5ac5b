-- ===== src/Watchdog/Snapshot.antt =====
-- `_last_docker_state` of src/main.py: what a cycle finds of the containers and of the log, as the
-- dict that bundles hold, with the `as_dict` methods of src/docker_client.py and
-- src/log_classifier.py.
use teslamate_watchdog.Shared.{
  ℕ, String, ◌≡◌, refl, ap, false, Option, none, some, List, [], ◌∷◌, str_eq, if◌then◌else◌, inl,
  inr, Bool-cases,
}
use teslamate_watchdog.Shared.Text.{take_chars}
use teslamate_watchdog.Shared.Json.{Json, Fields, get, get_in, opt_text, opt_num, opt_bool}
use teslamate_watchdog.Python.{Python}
use teslamate_watchdog.Config.{Config}
use teslamate_watchdog.DockerClient.{ContainerRef, ContainerStatus, status}
use teslamate_watchdog.DockerClient.Database.{DatabaseHealth, check_database}
use teslamate_watchdog.DockerClient.Logs.{logs}
use teslamate_watchdog.MqttClient.Retained.{last_value}
use teslamate_watchdog.LogClassifier.{Dict, Classifier, Classification, lookup, classify, is_empty}
use teslamate_watchdog.Diagnostics.{Disk, bundle_files}
use teslamate_watchdog.Watchdog.{Cycle}

-- what `ContainerStatus.as_dict` takes from the container
abbrev container_id : Option ContainerRef → Json
container_id none = Json.null
container_id (some ref) = Json.text (take_chars 12 ref.id)

abbrev container_name : Option ContainerRef → Json
container_name none = Json.null
container_name (some ref) = Json.text ref.name

abbrev compose_service : Option ContainerRef → Json
compose_service none = Json.null
compose_service (some ref) = opt_text ref.compose_service

-- `ContainerStatus.as_dict`
abbrev pub status_as_dict : ContainerStatus → Fields
status_as_dict s = Fields.field "exists" (Json.bool s.exists) (
    Fields.field "running" (opt_bool s.running) (
      Fields.field "status" (opt_text s.status) (
        Fields.field "health" (opt_text s.health) (
          Fields.field "restart_count" (opt_num s.restart_count) (
            Fields.field "oom_killed" (opt_bool s.oom_killed) (
              Fields.field "exit_code" (opt_num s.exit_code) (
                Fields.field "started_at" (opt_text s.started_at) (
                  Fields.field "finished_at" (opt_text s.finished_at) (
                    Fields.field "container_id" (container_id s.ref) (
                      Fields.field "container_name" (container_name s.ref) (
                        Fields.field "compose_service" (compose_service s.ref)
                          (Fields.field "error" (opt_text s.error) (Fields.end)))))))))))))

-- `DatabaseHealth.as_dict`
abbrev pub database_as_dict : DatabaseHealth → Fields
database_as_dict d = Fields.field "healthy" (opt_bool d.healthy) (
    Fields.field "source" (Json.text d.source) (
      Fields.field "detail" (Json.text d.detail)
        (Fields.field "container" (Json.obj (status_as_dict d.status)) (Fields.end))))

-- a dict as a JSON value
abbrev pub dict_as_json : {A : Type 0} → (A → Json) → Dict A → Fields
dict_as_json f [] = Fields.end
dict_as_json f ((key, value) ∷ rest) = Fields.field key (f value) (dict_as_json f rest)

-- `Classification.as_dict`
abbrev pub classification_as_dict : Classification → Fields
classification_as_dict r = Fields.field "counts" (Json.obj (dict_as_json Json.num r.counts)) (
    Fields.field "examples" (Json.obj (dict_as_json Json.text r.examples))
      (Fields.field "lines_scanned" (Json.num r.lines_scanned) (Fields.end)))

get-dict_as_json :
    (category excerpt : String) (d : Dict String)
    → lookup category d ≡ some excerpt
    → get category (dict_as_json Json.text d) ≡ some (Json.text excerpt)
get-dict_as_json category excerpt [] h = cc
get-dict_as_json category excerpt ((key, value) ∷ rest) h =
    elim (Bool-cases (str_eq key category)) [
      | inl e ↦
          let same : value ≡ excerpt = cc (rw e at h) in rw e (ap (λ v. some (Json.text v)) same)
      | inr e ↦ rw e (get-dict_as_json category excerpt rest (rw e at h))
    ]

module _ (py : Python) (k : Classifier) (c : Config) where
  -- the text that `_observe` has the classifier read
  abbrev pub recent_log : Cycle → String
  recent_log env =
      logs py.decode env.logs_proxy env.logs_at c.teslamate_container
        c.log_analysis_lookback_seconds

  -- the key that is added for a log that is classified
  unfoldable pub log_classification : Cycle → Fields
  log_classification env =
      if is_empty k
      then Fields.end
      else if str_eq (recent_log env) ""
      then Fields.end
      else Fields.field "log_classification"
          (Json.obj (classification_as_dict (classify py.words py.lines k (recent_log env))))
          Fields.end

  -- `docker_state` of `_observe`
  unfoldable pub docker_state : Cycle → Json
  unfolding log_classification
  docker_state env = Json.obj (
      Fields.field "teslamate"
        (Json.obj (status_as_dict (status env.status_proxy c.teslamate_container)))
        (Fields.field "database"
          (Json.obj
            (database_as_dict (check_database c env.database_proxy env.database_connection)))
          (log_classification env)))

  -- If the log classifier has patterns and the recent log is not empty, every excerpt that the
  -- classification keeps for a category stands in the docker-state.json of a bundle as it is,
  -- whatever the redactions.
  pub docker_state-unredacted :
      (redactions : List (String → String))
      (base_dir state reason teslamate_log database_log : String) (retention_days : ℕ) (disk : Disk)
      (summary : Fields) (env : Cycle) (category excerpt : String)
      → is_empty k ≡ false
      → str_eq (recent_log env) "" ≡ false
      → lookup category (classify py.words py.lines k (recent_log env)).examples ≡ some excerpt
      → (written : Json) × (last_value "docker-state.json" (
            bundle_files py redactions base_dir retention_days disk state reason summary
              teslamate_log database_log
              (docker_state env))
          ≡ some (py.dumps_indented written))
        × (get_in category (get_in "examples" (get_in "log_classification" (some written)))
            ≡ some (Json.text excerpt))
  unfolding docker_state log_classification
  docker_state-unredacted redactions base_dir state reason teslamate_log database_log retention_days
        disk summary env category excerpt patterns logged found =
      (docker_state env, refl, rw (patterns, logged) (get-dict_as_json category excerpt _ found))
