-- ===== src/Examples/Secrets.antt =====
-- A token in the log of TeslaMate, on its way into a bundle of src/diagnostics.py.
use teslamate_watchdog.Shared.{[], String, ◌≡◌, refl, some, List, ◌∷◌}
use teslamate_watchdog.Shared.Strings.{contains, is_space}
use teslamate_watchdog.Shared.Json.{Json, Fields, get_in}
use teslamate_watchdog.Python.{Python}
use teslamate_watchdog.DockerClient.{
  Proxy, answered, decoded, get_json, is_named, resolve_from, resolve, to_ref,
}
use teslamate_watchdog.DockerClient.Logs.{
  logs, demultiplex, demultiplex_bytes, demultiplex_from, is_header,
}
use teslamate_watchdog.MqttClient.Retained.{last_value}
use teslamate_watchdog.LogClassifier.{
  Classifier, new_classifier, classify, note_line, note_lines, note_category, truncate, is_blank,
  is_empty,
}
use teslamate_watchdog.Diagnostics.{bundle_files}
use teslamate_watchdog.Watchdog.{Cycle}
use teslamate_watchdog.Watchdog.Snapshot.{docker_state, docker_state-unredacted}
use teslamate_watchdog.Examples.Data.{python, config, proxy}
use teslamate_watchdog.Examples.World.{cycle_at}
use teslamate_watchdog.Examples.Launches.{disk}

abbrev secret : String
secret = "refresh failed: qts-1234567890ab"

abbrev reading : Python
reading = record python { decode = λ bytes. secret }

abbrev noisy : Proxy
noisy = record proxy { logs_reply = λ id since. answered 200 "" (decoded (65 ∷ [])) }

abbrev noisy_cycle : Cycle
noisy_cycle = cycle_at 1000 proxy noisy

abbrev classifier : Classifier
classifier =
    new_classifier (("refresh_failure", (λ line. contains "refresh failed" line) ∷ []) ∷ []) []

-- every substitution wipes the text
abbrev redactions : List (String → String)
redactions = (λ text. "") ∷ []

docker_state-unredacted_example :
    (written : Json) × (last_value "docker-state.json" (
        bundle_files reading redactions "/data" 14 disk "logged_out" "why" Fields.end secret ""
          (docker_state reading classifier config noisy_cycle))
      ≡ some (reading.dumps_indented written))
    × (get_in "refresh_failure" (get_in "examples" (get_in "log_classification" (some written)))
        ≡ some (Json.text secret))
unfolding logs demultiplex demultiplex_bytes demultiplex_from is_header get_json is_named
    resolve_from resolve to_ref classify note_line note_lines note_category truncate is_blank
    is_empty new_classifier is_space
docker_state-unredacted_example =
    docker_state-unredacted reading classifier config redactions "/data" "logged_out" "why" secret
      "" 14 disk Fields.end noisy_cycle "refresh_failure" secret refl refl refl
