-- ===== src/Examples/Launches.antt =====
-- `main` of src/main.py on the default configuration, what it announces, and bundles on a disk.
use mathlib.Core.List.{Memᴰ}
use teslamate_watchdog.Shared.{
  [], str_eq, String, ◌≡◌, refl, ◌⊎◌, true, false, none, some, List, ◌∷◌, ◌++◌, arith, All, take,
}
use teslamate_watchdog.Config.Validation.{IsValid}
use teslamate_watchdog.Config.Bounds.{IsInRange}
use teslamate_watchdog.RestartManager.{HistoryFile, seconds}
use teslamate_watchdog.RestartManager.Persistence.{load, recreate}
use teslamate_watchdog.MqttClient.{Mqtt, new_mqtt, stop}
use teslamate_watchdog.MqttClient.Connection.{connection_options, tls_option}
use teslamate_watchdog.LogClassifier.FromFile.{Document, from_file}
use teslamate_watchdog.Watchdog.{build_watchdog, publish_status}
use teslamate_watchdog.HaDiscovery.{build_entities}
use teslamate_watchdog.HaDiscovery.Served.{IsServed, build_entities-IsServed}
use teslamate_watchdog.HaDiscovery.Available.{IsAnnounced}
use teslamate_watchdog.Main.{
  Callback, Step, Launch, Outcome, calls, serve, build_and_serve, connect_and_serve, start, main,
}
use teslamate_watchdog.Main.Calm.{calm}
use teslamate_watchdog.Main.Announced.{serve-IsAnnounced}
use teslamate_watchdog.Main.Recovering.{serve-IsHeld}
use teslamate_watchdog.Recovery.Held.{IsHeld}
use teslamate_watchdog.Main.Outcomes.{SaysGoodbye, main-finished}
use teslamate_watchdog.Shared.Text.{str}
use teslamate_watchdog.Shared.Json.{Json, Fields}
use teslamate_watchdog.StateMachine.{logged_out}
use teslamate_watchdog.Events.{Event, Incident}
use teslamate_watchdog.Diagnostics as Writer
use teslamate_watchdog.Diagnostics.{
  Entry, Disk, capture_into, write_all, incident, new_entry, bundle_files, exists, free_from,
  unique_directory, prune, prune_entries,
}
use teslamate_watchdog.Diagnostics.Names.{unique_directory-fresh}
use teslamate_watchdog.Diagnostics.Kept.{Use, uses, uses-keep}
use teslamate_watchdog.Recovery.{bundle}
use teslamate_watchdog.Recovery.Bundled.{capture_to_disk, IsOnDisk, capture_to_disk-announces}
use teslamate_watchdog.Examples.Data.{python, config, good, is_sign_in, no_float, as_text}
use teslamate_watchdog.Examples.Settings.{
  client_context, only_host, files, defaults, from_env-defaults,
}
use teslamate_watchdog.Examples.World.{classifier, first_cycle, at_first, new_manager}

-- The broker is lost and found again, and a cycle runs, with one more connection in its middle,
-- until a value of the status raises.
abbrev launch : Launch
launch = record {
  environment = only_host;
  files = files;
  fresh_context = client_context;
  load_error = λ path. none;
  compile = λ expression. none;
  search = λ pattern. is_sign_in;
  document = λ path. Document.unreadable;
  history = HistoryFile.not_found;
  early = Callback.connected false (seconds 1) ∷ [];
  steps =
      Step.callback (Callback.connected false (seconds 90))
      ∷ Step.cycle first_cycle (record calm {
        status_raises = λ suffix. str_eq suffix "last_check";
        meanwhile = Callback.connected false (seconds 60) ∷ [];
      })
      ∷ Step.callback Callback.disconnected
      ∷ [];
}

abbrev ended : Mqtt
ended =
    stop defaults
      (serve python defaults is_sign_in (from_file launch.compile Document.unreadable) launch.steps
        (build_watchdog (record { history = []; file = HistoryFile.not_found })
          (calls python defaults launch.early new_mqtt))).mqtt

main-launch : main python no_float as_text launch ≡ Outcome.finished defaults ended
unfolding main start connect_and_serve connection_options tls_option build_and_serve recreate load
main-launch = rw from_env-defaults refl

main-finished_example : IsValid files defaults × IsInRange defaults × SaysGoodbye defaults ended
main-finished_example = main-finished python no_float as_text launch defaults ended main-launch

serve-IsAnnounced_example :
    IsAnnounced defaults
      (serve python defaults is_sign_in classifier launch.steps
        (build_watchdog new_manager (calls python defaults launch.early new_mqtt))).mqtt
serve-IsAnnounced_example =
    serve-IsAnnounced defaults python is_sign_in classifier new_manager launch.early launch.steps

serve-IsHeld_example :
    IsHeld
      (serve python defaults is_sign_in classifier launch.steps
        (build_watchdog new_manager (calls python defaults launch.early new_mqtt))).world
serve-IsHeld_example =
    serve-IsHeld python defaults is_sign_in classifier new_manager launch.early launch.steps

build_entities-IsServed_example :
    All
      (IsServed
        (publish_status python is_sign_in classifier config first_cycle good
          at_first).mqtt.published)
      (build_entities config)
build_entities-IsServed_example =
    build_entities-IsServed python is_sign_in classifier config first_cycle good at_first

-- A day at which the first name is taken already.
abbrev pub disk : Disk
disk = record {
  stamp = "20260101T000000Z";
  timestamp = "2026-01-01T00:00:00+00:00";
  made_at = seconds 5000000;
  mkdir_fails = false;
  write_fails = λ name. false;
  pruned_at = seconds 5000001;
  listing_fails = false;
  removal_fails = λ name. false;
}

abbrev taken : List Entry
taken =
    record {
      name = "20260101T000000Z_logged_out";
      is_dir = true;
      modified = seconds 4999999;
      files = [];
    }
    ∷ record { name = "20251101T000000Z_logged_out"; is_dir = true; modified = 5; files = [] }
    ∷ []

unique_directory-taken :
    unique_directory taken "20260101T000000Z_logged_out" ≡ some "20260101T000000Z_logged_out-2"
unfolding unique_directory free_from exists str
unique_directory-taken = refl

prune-taken : prune disk 14 taken ≡ (take 1 taken, 1)
unfolding prune prune_entries
prune-taken = refl

unique_directory-fresh_example :
    (name : String) × (unique_directory taken "20260101T000000Z_logged_out" ≡ some name)
    × (exists name taken ≡ false)
unique_directory-fresh_example = unique_directory-fresh taken "20260101T000000Z_logged_out"

-- The program is started anew an hour later, and one more incident is captured.
abbrev later_uses : List Use
later_uses =
    Use.captured (record disk { made_at = seconds 5003700; pruned_at = seconds 5003701 })
      "logged_out" "again" Fields.end "" "" Json.null
    ∷ Use.started (record disk { pruned_at = seconds 5003600 })
    ∷ []

uses-keep_example :
    let caught =
      Writer.capture python [] "/data" 14 disk "logged_out" "why" Fields.end "log" "" Json.null
        taken in
    (name : String) × (incident python [] "/data" 14 "20260101T000000Z_logged_out-2"
      ≡ incident python [] "/data" 14 name)
    × Memᴰ
        (new_entry python [] "/data" 14 disk name
          (bundle_files python [] "/data" 14 disk "logged_out" "why" Fields.end "log" "" Json.null))
        (uses python [] "/data" 14 later_uses caught.0)
unfolding Writer.capture capture_into write_all unique_directory free_from exists str
uses-keep_example =
    uses-keep python [] "/data" 14 disk "logged_out" "why" Fields.end "log" "" Json.null taken
      (incident python [] "/data" 14 "20260101T000000Z_logged_out-2") later_uses refl (omega arith)
      (omega arith, (omega arith, tt))

capture_to_disk-announces_example :
    let after =
      capture_to_disk python config [] disk Json.null first_cycle.outside logged_out "why" good
        at_first.world taken in
    (after.0.events ≡ at_first.world.events)
    ⊎ (i : Incident) × (after.0.events
        ≡ at_first.world.events ++ Event.diagnostics_captured logged_out "why" i ∷ [])
      × IsOnDisk python config [] disk Json.null
          (bundle python config first_cycle.outside logged_out "why" good at_first.world)
          taken
          after.1
          i
capture_to_disk-announces_example =
    capture_to_disk-announces python config [] disk Json.null first_cycle.outside logged_out "why"
      good at_first.world taken (omega arith)
