-- ===== src/Diagnostics/Bundles.antt =====
-- What capturing an incident leaves in the directory of bundles.
use mathlib.Core.List.{append-nil}
use teslamate_watchdog.Shared.{
  ℕ, ◌+◌, ◌*◌, ◌≤◌, String, ◌≡◌, refl, Bool, true, false, not, ◌&&◌, ◌||◌, none, some, List, [],
  ◌∷◌, ◌++◌, arith, ◌==◌, keep, keep-snoc, length, inl, inr, Bool-cases,
}
use teslamate_watchdog.Shared.Text.{fstring}
use teslamate_watchdog.Shared.Json.{Json, Fields}
use teslamate_watchdog.Python.{Python}
use teslamate_watchdog.RestartManager.{seconds}
use teslamate_watchdog.Events.{Incident}
use teslamate_watchdog.Diagnostics.{
  Entry, Disk, exists, is_old, prune_entries, prune, write_all, capture, incident, bundle_files,
  new_entry,
}
use teslamate_watchdog.Diagnostics.Names.{unique_directory-fresh}

-- An entry stays unless it is a directory past its time that can be removed.
abbrev pub stays : Disk → ℕ → Entry → Bool
stays disk days e =
    days == 0
    || disk.listing_fails
    || not (e.is_dir && is_old disk.pruned_at days e && not (disk.removal_fails e.name))

prune_entries_lem :
    (disk : Disk) (days : ℕ) (entries : List Entry)
    → (days == 0) ≡ false
    → disk.listing_fails ≡ false
    → ((prune_entries disk days entries).0 ≡ keep (stays disk days) entries)
      × ((prune_entries disk days entries).1 + length (keep (stays disk days) entries)
          ≡ length entries)
unfolding prune_entries
prune_entries_lem disk days [] h h' = (refl, refl)
prune_entries_lem disk days (e ∷ es) h h' = ground (arith, prune_entries_lem disk days es)

keep-all :
    (p : Entry → Bool) (entries : List Entry)
    → ((e : Entry) → p e ≡ true)
    → keep p entries ≡ entries
keep-all p [] h = refl
keep-all p (e ∷ es) h = rw (h e, keep-all p es h)

-- Pruning keeps, in order, exactly the entries that are no directory, are not past their time or
-- cannot be removed, and counts the others.
pub prune-stays :
    (disk : Disk) (days : ℕ) (entries : List Entry)
    → ((prune disk days entries).0 ≡ keep (stays disk days) entries)
      × ((prune disk days entries).1 + length (keep (stays disk days) entries) ≡ length entries)
unfolding prune
prune-stays disk days entries = elim (Bool-cases (days == 0)) [
  | inl off ↦ ground (arith, off, keep-all (stays disk days) entries (λ e. ground (arith, off)))
  | inr on ↦ elim (Bool-cases disk.listing_fails) [
    | inl unlisted ↦
        ground
          (arith, on, unlisted, keep-all (stays disk days) entries (λ e. ground (arith, unlisted)))
    | inr listed ↦ ground (arith, on, listed, prune_entries_lem disk days entries on listed)
  ]
]

write_all-done :
    (disk : Disk) (files : List (String × String))
    → (write_all disk files).1 ≡ true
    → (write_all disk files).0 ≡ files
unfolding write_all
write_all-done disk [] h = refl
write_all-done disk ((name, content) ∷ rest) h = ground (arith, write_all-done disk rest)

module _ (py : Python) (redactions : List (String → String)) (base_dir : String)
    (retention_days : ℕ) where
  -- If pruning reads the clock no later than the retention period after the bundle is made and a
  -- capture returns an incident, the whole bundle is on the disk in a directory with a new name,
  -- which the incident gives, and only directories past their time are gone.
  pub capture_complete :
      (disk : Disk) (state reason : String) (summary : Fields) (teslamate_log database_log : String)
      (docker_state : Json) (entries : List Entry) (i : Incident)
      → disk.pruned_at ≤ disk.made_at + seconds (retention_days * 86400)
      → (capture py redactions base_dir retention_days disk state reason summary teslamate_log
          database_log docker_state entries).1
        ≡ some i
      → (name : String) × (exists name entries ≡ false)
        × (i ≡ incident py redactions base_dir retention_days name)
        × ((capture py redactions base_dir retention_days disk state reason summary teslamate_log
              database_log docker_state entries).0
            ≡ keep (stays disk retention_days) entries
              ++ new_entry py redactions base_dir retention_days disk name (
                  bundle_files py redactions base_dir retention_days disk state reason summary
                    teslamate_log database_log docker_state)
                ∷ [])
  unfolding capture
  capture_complete disk state reason summary teslamate_log database_log docker_state entries i young
        h =
      let files =
        bundle_files py redactions base_dir retention_days disk state reason summary teslamate_log
          database_log docker_state in
      let (name, found, free) =
        unique_directory-fresh entries (fstring (disk.stamp ∷ "_" ∷ py.lower state ∷ [])) in
      let new = new_entry py redactions base_dir retention_days disk name files in
      let new_stays : stays disk retention_days new ≡ true = ground (arith, young) in
      (
        name,
        free,
        ground (arith, found),
        ground (
          arith,
          found,
          write_all-done disk files,
          (prune-stays disk retention_days (entries ++ new ∷ [])).0,
          keep-snoc (stays disk retention_days) entries new new_stays,
        ),
      )

  -- If a capture returns no incident, every entry that was in the directory of bundles is still
  -- there, unchanged and in order.
  pub capture-failed :
      (disk : Disk) (state reason : String) (summary : Fields) (teslamate_log database_log : String)
      (docker_state : Json) (entries : List Entry)
      → (capture py redactions base_dir retention_days disk state reason summary teslamate_log
          database_log docker_state entries).1
        ≡ none
      → (made : List Entry) × ((capture py redactions base_dir retention_days disk state reason
            summary teslamate_log database_log docker_state entries).0
          ≡ entries ++ made)
  unfolding capture
  capture-failed disk state reason summary teslamate_log database_log docker_state entries h =
      let files =
        bundle_files py redactions base_dir retention_days disk state reason summary teslamate_log
          database_log docker_state in
      let (name, found, free) =
        unique_directory-fresh entries (fstring (disk.stamp ∷ "_" ∷ py.lower state ∷ [])) in
      let new =
        new_entry py redactions base_dir retention_days disk name (write_all disk files).0 in
      elim (Bool-cases disk.mkdir_fails) [
        | inl fails ↦ ([], ground (arith, found, fails, append-nil entries))
        | inr made ↦ (new ∷ [], ground (arith, found, made, h))
      ]
