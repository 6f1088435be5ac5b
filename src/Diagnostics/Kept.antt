-- ===== src/Diagnostics/Kept.antt =====
-- How long a bundle of src/diagnostics.py stays in its directory, which the program prunes when it
-- starts and whenever it captures an incident.
use mathlib.Core.List.{Memᴰ}
use mathlib.Core.List.Memᴰ
use mathlib.Core.Path.{subst}
use teslamate_watchdog.Shared.{
  ℕ, ◌+◌, ◌*◌, ◌≤◌, String, ◌≡◌, refl, sym, ap, ◌∙◌, Bool, true, some, List, [], ◌∷◌, ◌++◌, arith,
  keep, All, Bool-cases, inl, inr,
}
use teslamate_watchdog.Shared.Text.{fstring}
use teslamate_watchdog.Shared.Json.{Json, Fields}
use teslamate_watchdog.Python.{Python}
use teslamate_watchdog.RestartManager.{seconds}
use teslamate_watchdog.Events.{Incident}
use teslamate_watchdog.Diagnostics.{
  Entry, Disk, prune, write_all, capture, capture_into, incident, bundle_files, new_entry,
}
use teslamate_watchdog.Diagnostics.Names.{unique_directory-fresh}
use teslamate_watchdog.Diagnostics.Bundles.{stays, prune-stays, capture_complete}

-- What the program does with the directory.
pub data Use : Type 0 where
  started : Disk → Use
  captured :
      Disk → (state reason : String) → Fields → (teslamate_log database_log : String) → Json → Use

-- when a use reads the clock to prune
abbrev pub pruned_at : Use → ℕ
pruned_at (Use.started disk) = disk.pruned_at
pruned_at (Use.captured disk state reason summary teslamate_log database_log docker_state) =
    disk.pruned_at

module _ (py : Python) (redactions : List (String → String)) (base_dir : String)
    (retention_days : ℕ) where
  -- the directory after a use, and after several, the latest first
  unfoldable pub use_once : Use → List Entry → List Entry
  use_once (Use.started disk) entries = (prune disk retention_days entries).0
  use_once (Use.captured disk state reason summary teslamate_log database_log docker_state)
        entries =
      (capture py redactions base_dir retention_days disk state reason summary teslamate_log
        database_log docker_state entries).0

  unfoldable pub uses : List Use → List Entry → List Entry
  unfolding use_once
  uses [] entries = entries
  uses (u ∷ past) entries = use_once u (uses past entries)

  -- pruning reads the clock within the time of an entry
  abbrev pub IsInTime : Entry → Use → Type 0
  IsInTime e u = pruned_at u ≤ e.modified + seconds (retention_days * 86400)

  keep-Memᴰ :
      (p : Entry → Bool) {e : Entry} {entries : List Entry}
      → p e ≡ true
      → Memᴰ e entries
      → Memᴰ e (keep p entries)
  keep-Memᴰ p h (Memᴰ.head {x = x} {xs = xs} same) = rw (sym (ap p same) ∙ h) (Memᴰ.head same)
  keep-Memᴰ p h (Memᴰ.tail {x = x} {xs = xs} m) = elim (Bool-cases (p x)) [
    | inl kept ↦ rw kept (Memᴰ.tail (keep-Memᴰ p h m))
    | inr gone ↦ rw gone (keep-Memᴰ p h m)
  ]

  prune-Memᴰ :
      (disk : Disk) {e : Entry} {entries : List Entry}
      → disk.pruned_at ≤ e.modified + seconds (retention_days * 86400)
      → Memᴰ e entries
      → Memᴰ e (prune disk retention_days entries).0
  prune-Memᴰ disk {e} {entries} young m =
      let kept : stays disk retention_days e ≡ true = ground (arith, young) in
      subst (Memᴰ e) (sym (prune-stays disk retention_days entries).0)
        (keep-Memᴰ (stays disk retention_days) kept m)

  capture_into-Memᴰ :
      (disk : Disk) (name : String) (files : List (String × String)) {e : Entry}
      {entries : List Entry}
      → disk.pruned_at ≤ e.modified + seconds (retention_days * 86400)
      → Memᴰ e entries
      → Memᴰ e (capture_into py redactions base_dir retention_days disk entries name files).0
  unfolding capture_into
  capture_into-Memᴰ disk name files {e} {entries} young m =
      let written = write_all disk files in
      let new = new_entry py redactions base_dir retention_days disk name written.0 in
      let among : Memᴰ e (entries ++ new ∷ []) = Memᴰ.append_left (new ∷ []) m in
      elim (Bool-cases written.1) [
        | inl done ↦ rw done (prune-Memᴰ disk young among)
        | inr failed ↦ rw failed among
      ]

  use_once-Memᴰ :
      (u : Use) {e : Entry} {entries : List Entry}
      → IsInTime e u
      → Memᴰ e entries
      → Memᴰ e (use_once u entries)
  unfolding use_once capture prune
  use_once-Memᴰ (Use.started disk) young m = prune-Memᴰ disk young m
  use_once-Memᴰ (Use.captured disk state reason summary teslamate_log database_log docker_state) {e}
        {entries} young m =
      let files =
        bundle_files py redactions base_dir retention_days disk state reason summary teslamate_log
          database_log docker_state in
      let (name, found, free) =
        unique_directory-fresh entries (fstring (disk.stamp ∷ "_" ∷ py.lower state ∷ [])) in
      elim (Bool-cases disk.mkdir_fails) [
        | inl fails ↦ rw (use_once, capture, found, fails) m
        | inr made ↦ rw (use_once, capture, found, made) (capture_into-Memᴰ disk name files young m)
      ]

  uses-Memᴰ :
      (past : List Use) {e : Entry} {entries : List Entry}
      → All (IsInTime e) past
      → Memᴰ e entries
      → Memᴰ e (uses past entries)
  unfolding uses
  uses-Memᴰ [] young m = m
  uses-Memᴰ (u ∷ past) (now, young) m = use_once-Memᴰ u now (uses-Memᴰ past young m)

  -- If a capture returns an incident, and in it and in any later captures and starts of the
  -- program pruning reads the clock no later than the retention period after the bundle was made,
  -- then after all of them the whole bundle is in the directory that the incident names.
  pub uses-keep :
      (disk : Disk) (state reason : String) (summary : Fields) (teslamate_log database_log : String)
      (docker_state : Json) (entries : List Entry) (i : Incident) (later : List Use)
      → let caught =
          capture py redactions base_dir retention_days disk state reason summary teslamate_log
            database_log docker_state entries in
        caught.1 ≡ some i
        → disk.pruned_at ≤ disk.made_at + seconds (retention_days * 86400)
        → All (λ u. pruned_at u ≤ disk.made_at + seconds (retention_days * 86400)) later
        → (name : String) × (i ≡ incident py redactions base_dir retention_days name)
          × Memᴰ
              (new_entry py redactions base_dir retention_days disk name (
                bundle_files py redactions base_dir retention_days disk state reason summary
                  teslamate_log database_log docker_state))
              (uses later caught.0)
  uses-keep disk state reason summary teslamate_log database_log docker_state entries i later e
        young all =
      let (name, is_new, located, stored) =
        capture_complete py redactions base_dir retention_days disk state reason summary
          teslamate_log database_log docker_state entries i young e in
      (
        name,
        located,
        uses-Memᴰ later all (
            subst (Memᴰ _) (sym stored)
              (Memᴰ.append_right (keep (stays disk retention_days) entries) (Memᴰ.head refl))),
      )
