-- ===== src/Examples/Docker.antt =====
-- The containers and logs of src/docker_client.py, and the answers of src/http_check.py.
use teslamate_watchdog.Shared.{[], String, ◌≡◌, refl, ◌≢◌, ◌⊎◌, false, none, some, List, ◌∷◌, arith}
use teslamate_watchdog.HttpCheck.{end, Got, got}
use teslamate_watchdog.DockerClient.{
  ContainerRef, matches, get_json, is_named, resolve_from, resolve, restart_ref, post_result,
  restart, to_ref,
}
use teslamate_watchdog.DockerClient.Target.{restart-posted}
use teslamate_watchdog.DockerClient.Logs.{demultiplex_bytes}
use teslamate_watchdog.DockerClient.Logs.Frames.{demultiplex_bytes-stream, demultiplex_bytes-total}
use teslamate_watchdog.Examples.Data.{config, proxy, slow_proxy}

-- a restart that times out is not reported as done
restart-slow :
    ((restart config slow_proxy "teslamate").posted ≡ "4f1d" ∷ [])
    × ((restart config slow_proxy "teslamate").succeeded ≡ false)
unfolding restart resolve get_json resolve_from is_named to_ref restart_ref matches post_result
restart-slow = (refl, refl)

restart-posted_example :
    ("teslamate" ≡ config.teslamate_container)
    × (◌≡◌ {A = List String} [] [])
    × ((ref : ContainerRef) × (resolve proxy "teslamate" ≡ some ref)
        × (ref.id ≡ "4f1d")
        × ((ref.name ≡ "teslamate") ⊎ (ref.compose_service ≡ some "teslamate"))
        × (ref.name ≢ "database")
        × (ref.compose_service ≢ some "database"))
unfolding restart resolve get_json resolve_from is_named to_ref restart_ref matches post_result
restart-posted_example = restart-posted config proxy "teslamate" "4f1d" [] refl

demultiplex_bytes-stream_example :
    demultiplex_bytes
      (1 ∷ 0 ∷ 0 ∷ 0 ∷ 0 ∷ 0 ∷ 0 ∷ 2 ∷ 79 ∷ 75 ∷ 2 ∷ 0 ∷ 0 ∷ 0 ∷ 0 ∷ 0 ∷ 0 ∷ 1 ∷ 33 ∷ [])
    ≡ some (79 ∷ 75 ∷ 33 ∷ [])
demultiplex_bytes-stream_example =
    demultiplex_bytes-stream (1, 79 ∷ 75 ∷ []) ((2, 33 ∷ []) ∷ [])
      ((omega arith, omega arith), ((omega arith, omega arith), tt))

-- a stream that is cut short within a header
demultiplex_bytes-total_example : demultiplex_bytes (1 ∷ 0 ∷ 0 ∷ []) ≢ none
demultiplex_bytes-total_example = demultiplex_bytes-total (1 ∷ 0 ∷ 0 ∷ [])

abbrev redirect : Got
redirect = got (record { status_code = 302; location = some "/sign_in"; body = end })
