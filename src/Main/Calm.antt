-- ===== src/Main/Calm.antt =====
-- A cycle in which nothing raises and the MQTT client is not called.
use teslamate_watchdog.Shared.{String, ◌≡◌, refl, Bool, false, List, [], ◌∷◌}
use teslamate_watchdog.Python.{Python}
use teslamate_watchdog.Config.{Config}
use teslamate_watchdog.MqttClient.{Mqtt, publish_state}
use teslamate_watchdog.LogClassifier.{Classifier}
use teslamate_watchdog.Recovery.Raising.Same.{never}
use teslamate_watchdog.Watchdog.{Watchdog, Cycle, observe, check_once, publish_all, publish_status}
use teslamate_watchdog.Watchdog.Raising.Same.{react_lem}
use teslamate_watchdog.Main.Callbacks.{calls}
use teslamate_watchdog.Main.Attempt.{Trouble, try_publish, attempt}

-- nothing raises, and the client is not called
abbrev pub calm : Trouble
calm = record {
  http_raises = false;
  docker_raises = false;
  event_raises = never;
  status_raises = λ suffix. false;
  meanwhile = [];
  before = λ suffix. [];
}

module _ (py : Python) (search : String → Bool) (k : Classifier) (c : Config) where
  try_publish-calm :
      (values : List (String × String)) (m : Mqtt)
      → try_publish py search k c calm values m ≡ publish_all py search k c values m
  unfolding try_publish publish_all calls
  try_publish-calm [] m = refl
  try_publish-calm ((suffix, payload) ∷ rest) m =
      try_publish-calm rest (publish_state c suffix payload m)

  pub attempt-calm :
      (env : Cycle) (d : Watchdog)
      → attempt py search k c calm env d ≡ check_once py search k c env d
  unfolding attempt check_once publish_status calls
  attempt-calm env d =
      let (seen, o) = observe py search k c env d in
      rw (react_lem py search k c env o seen, try_publish-calm) refl
