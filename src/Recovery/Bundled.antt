-- ===== src/Recovery/Bundled.antt =====
-- `RecoveryController.capture` with the writer of src/diagnostics.py that it calls, over the
-- directory of bundles. The state of the containers is given.
use teslamate_watchdog.Shared.{
  ◌*◌, ◌+◌, ◌≤◌, String, ◌≡◌, refl, ◌⊎◌, inl, inr, false, Option, none, some, List, [], ◌∷◌, ◌++◌,
  keep, Option-cases,
}
use teslamate_watchdog.Shared.Json.{Json, Fields, opt_text}
use teslamate_watchdog.Python.{Python}
use teslamate_watchdog.Config.{Config}
use teslamate_watchdog.StateMachine.{State, Observation}
use teslamate_watchdog.StateMachine.States.{value}
use teslamate_watchdog.RestartManager.{seconds}
use teslamate_watchdog.Events.{Bundle, Event, Incident}
use teslamate_watchdog.Events.Payloads.{observation_as_dict}
use teslamate_watchdog.Diagnostics as Writer
use teslamate_watchdog.Diagnostics.{Entry, Disk, exists, incident, bundle_files, new_entry}
use teslamate_watchdog.Diagnostics.Bundles.{stays, capture_complete}
use teslamate_watchdog.Recovery.{World, Outside, bundle, capture}

-- `summary` of `RecoveryController.capture`
abbrev pub bundle_summary : Bundle → Fields
bundle_summary b = Fields.field "observation" (Json.obj (observation_as_dict b.observation)) (
    Fields.field "restart_count_24h" (Json.num b.restart_count_24h) (
      Fields.field "last_restart" (opt_text b.last_restart)
        (Fields.field "restart_attempted" (Json.bool b.restart_attempted) Fields.end)))

module _ (py : Python) (c : Config) (redactions : List (String → String)) (disk : Disk)
    (docker_state : Json) where
  -- `self._diagnostics.capture(…)`
  unfoldable pub write_bundle : Bundle → List Entry → List Entry × Option Incident
  write_bundle b entries =
      Writer.capture py redactions c.diagnostic_dir c.diagnostic_retention_days disk (value b.state)
        b.reason (bundle_summary b) b.teslamate_log b.database_log docker_state entries

  -- `RecoveryController.capture`, with what it leaves on the disk
  unfoldable pub capture_to_disk :
      Outside → State → String → Observation → World → List Entry → World × List Entry
  unfolding write_bundle
  capture_to_disk env s reason o w entries =
      let (after, written) = write_bundle (bundle py c env s reason o w) entries in
      (capture py c (record env { incident = written }) s reason o w, after)

  -- The files of a bundle, all that `capture` collects.
  abbrev pub files_of : Bundle → List (String × String)
  files_of b =
      bundle_files py redactions c.diagnostic_dir c.diagnostic_retention_days disk (value b.state)
        b.reason (bundle_summary b) b.teslamate_log b.database_log docker_state

  -- The whole bundle is on the disk, in a directory with a new name, and the incident tells where.
  pub record IsOnDisk (b : Bundle) (before after : List Entry) (i : Incident) : Type 0 where
    pub name : String
    pub is_new : exists name before ≡ false
    pub located : i ≡ incident py redactions c.diagnostic_dir c.diagnostic_retention_days name
    pub stored :
        after
        ≡ keep (stays disk c.diagnostic_retention_days) before
          ++ new_entry py redactions c.diagnostic_dir c.diagnostic_retention_days disk name
              (files_of b)
            ∷ []

  capture-silent :
      (env : Outside) (s : State) (reason : String) (o : Observation) (w : World)
      → env.incident ≡ none
      → (capture py c env s reason o w).events ≡ w.events
  unfolding capture
  capture-silent env s reason o w e = rw (capture, e) refl

  capture-tells :
      (env : Outside) (s : State) (reason : String) (o : Observation) (w : World) (i : Incident)
      → env.incident ≡ some i
      → (capture py c env s reason o w).events
        ≡ w.events ++ Event.diagnostics_captured s reason i ∷ []
  unfolding capture
  capture-tells env s reason o w i e = rw (capture, e) refl

  -- If pruning reads the clock no later than the retention period after the bundle is made, a
  -- capture publishes either nothing, or that a bundle was captured, once, and then the whole
  -- bundle is on the disk in a directory with a new name, which the incident gives, and only
  -- directories past their time are gone.
  pub capture_to_disk-announces :
      (env : Outside) (s : State) (reason : String) (o : Observation) (w : World)
      (entries : List Entry)
      → disk.pruned_at ≤ disk.made_at + seconds (c.diagnostic_retention_days * 86400)
      → ((capture_to_disk env s reason o w entries).0.events ≡ w.events)
        ⊎ (i : Incident) × ((capture_to_disk env s reason o w entries).0.events
            ≡ w.events ++ Event.diagnostics_captured s reason i ∷ [])
          × IsOnDisk
              (bundle py c env s reason o w)
              entries
              (capture_to_disk env s reason o w entries).1
              i
  unfolding capture_to_disk write_bundle
  capture_to_disk-announces env s reason o w entries young =
      let b = bundle py c env s reason o w in
      elim (Option-cases (write_bundle b entries).1) [
        | inl e ↦
            inl
              (capture-silent (record env { incident = (write_bundle b entries).1 }) s reason o w e)
        | inr (i, e) ↦
            let (name, is_new, located, stored) =
              capture_complete py redactions c.diagnostic_dir c.diagnostic_retention_days disk
                (value b.state) b.reason (bundle_summary b) b.teslamate_log b.database_log
                docker_state entries i young e in
            inr (
              i,
              capture-tells (record env { incident = (write_bundle b entries).1 }) s reason o w i e,
              record { name = name; is_new = is_new; located = located; stored = stored },
            )
      ]
