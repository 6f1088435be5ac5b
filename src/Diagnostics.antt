-- ===== src/Diagnostics.antt =====
-- src/diagnostics.py: the writer of incident bundles, over the entries of its directory. The
-- patterns of `redact`, which Redaction.antt has, are an argument, applied one after the other; what
-- a failed write or removal leaves of a file or a bundle is not modelled.
pub mod Names
pub mod Bundles
pub mod Redaction
pub mod Kept
use teslamate_watchdog.Shared.{
  ℕ, zero, suc, ◌+◌, ◌*◌, String, Bool, true, false, not, ◌&&◌, ◌||◌, Option, none, some, List, [],
  ◌∷◌, ◌++◌, ◌==◌, leb, ltb, str_eq, any, length, if◌then◌else◌,
}
use teslamate_watchdog.Shared.Text.{fstring, str}
use teslamate_watchdog.Shared.Json.{Json, Fields, merge}
use teslamate_watchdog.Python.{Python}
use teslamate_watchdog.RestartManager.{seconds}
use teslamate_watchdog.Events.{Incident}

-- An entry of the directory of bundles; a bundle has files, by name.
pub record Entry : Type 0 where
  pub name : String
  pub is_dir : Bool
  pub modified : ℕ
  pub files : List (String × String)

-- What the system answers to one call of `capture`: the time as a stamp and as a text, what fails
-- with an `OSError`, the time of the new bundle, and the time and outcomes of pruning.
pub record Disk : Type 0 where
  pub stamp : String
  pub timestamp : String
  pub made_at : ℕ
  pub mkdir_fails : Bool
  pub write_fails : String → Bool
  pub pruned_at : ℕ
  pub listing_fails : Bool
  pub removal_fails : String → Bool

-- `candidate.exists()`
unfoldable pub exists : String → List Entry → Bool
exists name entries = any (λ e. str_eq e.name name) entries

abbrev pub numbered : String → ℕ → String
numbered base_name suffix = fstring (base_name ∷ "-" ∷ str suffix ∷ [])

-- The loop of `_unique_directory`. None: the fuel has run out.
unfoldable pub free_from : ℕ → List Entry → String → String → ℕ → Option String
free_from zero entries base_name candidate suffix = none
free_from (suc fuel) entries base_name candidate suffix =
    let next = free_from fuel entries base_name (numbered base_name suffix) (suc suffix) in
    if exists candidate entries then next else some candidate

-- `_unique_directory`; there are fewer entries than candidates.
unfoldable pub unique_directory : List Entry → String → Option String
unfolding free_from
unique_directory entries base_name = free_from (suc (length entries)) entries base_name base_name 2

-- `entry.stat().st_mtime >= cutoff`, negated
abbrev pub is_old : ℕ → ℕ → Entry → Bool
is_old now retention_days e = ltb (e.modified + seconds (retention_days * 86400)) now

-- the loop of `prune`: what stays, and the count
unfoldable pub prune_entries : Disk → ℕ → List Entry → List Entry × ℕ
prune_entries disk days [] = ([], 0)
prune_entries disk days (e ∷ rest) =
    let (kept, removed) = prune_entries disk days rest in
    if not e.is_dir
    then (e ∷ kept, removed)
    else if not (is_old disk.pruned_at days e)
    then (e ∷ kept, removed)
    else if disk.removal_fails e.name
    then (e ∷ kept, removed)
    else (kept, suc removed)

-- `prune`
unfoldable pub prune : Disk → ℕ → List Entry → List Entry × ℕ
unfolding prune_entries
prune disk days entries =
    if days == 0
    then (entries, 0)
    else if disk.listing_fails
    then (entries, 0)
    else prune_entries disk days entries

-- The writes, in order: the files written, and whether all are.
unfoldable pub write_all : Disk → List (String × String) → List (String × String) × Bool
write_all disk [] = ([], true)
write_all disk ((name, content) ∷ rest) =
    let (written, done) = write_all disk rest in
    if disk.write_fails name then ([], false) else ((name, content) ∷ written, done)

-- `redact`, with `pattern.sub(replacement, text)` for each pattern
unfoldable pub redact : List (String → String) → String → String
redact [] text = text
redact (substitute ∷ rest) text = redact rest (substitute text)

-- `docker_state or {}`, of a dict or `None`
abbrev pub or_empty : Json → Json
or_empty Json.null = Json.obj Fields.end
or_empty state = state

-- the body of summary.json
abbrev pub summary_body : Disk → String → String → Fields → Json
summary_body disk state reason summary = Json.obj (
    merge
      (Fields.field "timestamp" (Json.text disk.timestamp) (
        Fields.field "state" (Json.text state)
          (Fields.field "trigger_reason" (Json.text reason) Fields.end)))
      summary)

module _ (py : Python) (redactions : List (String → String)) (base_dir : String)
    (retention_days : ℕ) where
  -- the files of a bundle, in the order in which they are written
  abbrev pub bundle_files :
      Disk → String → String → Fields → String → String → Json → List (String × String)
  bundle_files disk state reason summary teslamate_log database_log docker_state =
      ("summary.json", py.dumps_indented (summary_body disk state reason summary))
      ∷ ("teslamate.log", redact redactions teslamate_log)
      ∷ ("database.log", redact redactions database_log)
      ∷ ("docker-state.json", py.dumps_indented (or_empty docker_state))
      ∷ []

  abbrev pub new_entry : Disk → String → List (String × String) → Entry
  new_entry disk name files = record {
    name = name;
    is_dir = true;
    modified = disk.made_at;
    files = files;
  }

  abbrev pub incident : String → Incident
  incident name = record {
    directory = fstring (base_dir ∷ "/" ∷ name ∷ []);
    summary = fstring (base_dir ∷ "/" ∷ name ∷ "/summary.json" ∷ []);
  }

  -- `capture` in a directory that is made; no entry has its name
  unfoldable pub capture_into :
      Disk → List Entry → String → List (String × String) → List Entry × Option Incident
  unfolding write_all
  capture_into disk entries name files =
      let (written, done) = write_all disk files in
      let after = entries ++ new_entry disk name written ∷ [] in
      if not done
      then (after, none)
      else ((prune disk retention_days after).0, some (incident name))

  -- `capture`; the directory has a free name.
  unfoldable pub capture :
      Disk
      → String
      → String
      → Fields
      → String
      → String
      → Json
      → List Entry
      → List Entry × Option Incident
  unfolding capture_into unique_directory
  capture disk state reason summary teslamate_log database_log docker_state entries =
      let files = bundle_files disk state reason summary teslamate_log database_log docker_state in
      elim (unique_directory entries (fstring (disk.stamp ∷ "_" ∷ py.lower state ∷ []))) [
        | none ↦ (entries, none)
        | some name ↦
            if disk.mkdir_fails then (entries, none) else capture_into disk entries name files
      ]
