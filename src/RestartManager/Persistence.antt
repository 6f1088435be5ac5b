-- ===== src/RestartManager/Persistence.antt =====
-- `_load` of src/restart_manager.py, and what it makes of a file that `_save` wrote.
-- `float` of a text, `str` of a value that is no text and `isoformat` are Python's: parameters.
use teslamate_watchdog.Shared.{
  ℕ, ◌≤◌, String, ◌≡◌, refl, ap, true, false, Option, none, some, List, [], ◌∷◌, leb, le→leb,
  if◌then◌else◌, or_default, All,
}
use teslamate_watchdog.Shared.Json.{Json, Items, Fields, get}
use teslamate_watchdog.RestartManager.{
  RestartRecord, HistoryFile, Manager, record_as_dict, records_as_dicts, payload, save,
}

-- `self._history` after `_load`, or an exception that is not caught.
pub data Loaded : Type 0 where
  loaded : List RestartRecord → Loaded
  raised : Loaded

-- `list.sort(key=lambda record: record.at)`, which is stable
unfoldable pub insert : RestartRecord → List RestartRecord → List RestartRecord
insert r [] = r ∷ []
insert r (x ∷ xs) = if leb r.at x.at then r ∷ x ∷ xs else x ∷ insert r xs

unfoldable pub sort : List RestartRecord → List RestartRecord
unfolding insert
sort [] = []
sort (r ∷ rs) = insert r (sort rs)

-- in the order of their times
abbrev pub IsSorted : List RestartRecord → Type 0
IsSorted [] = Unit
IsSorted (r ∷ rs) = All (λ x. r.at ≤ x.at) rs × IsSorted rs

insert-first :
    (r : RestartRecord) (rs : List RestartRecord) → All (λ x. r.at ≤ x.at) rs → insert r rs ≡ r ∷ rs
unfolding insert
insert-first r [] h = refl
insert-first r (x ∷ xs) h = rw (le→leb r.at x.at h.0)

pub sort-of_IsSorted : (rs : List RestartRecord) → IsSorted rs → sort rs ≡ rs
unfolding sort
sort-of_IsSorted [] h = refl
sort-of_IsSorted (r ∷ rs) h = rw (sort-of_IsSorted rs h.1) (insert-first r rs h.0)

module _ (float_of_text : String → Option ℕ) (str_of : Json → String) where
  -- `float(value)`; none is a `TypeError` or a `ValueError`
  unfoldable pub float : Json → Option ℕ
  float (Json.num t) = some t
  float (Json.bool true) = some 1000000
  float (Json.bool false) = some 0
  float (Json.text s) = float_of_text s
  float _ = none

  -- `str(value)`
  unfoldable pub str_value : Json → String
  str_value (Json.text s) = s
  str_value v = str_of v

  read_fields : Fields → Option RestartRecord
  unfolding float str_value
  read_fields entry = elim (get "at" entry) [
    | none ↦ none
    | some at ↦ elim (float at) [
      | none ↦ none
      | some t ↦ some (record {
        at = t;
        state = str_value (or_default (get "state" entry) (Json.text ""));
        reason = str_value (or_default (get "reason" entry) (Json.text ""));
      })
    ]
  ]

  -- One entry, or none where a `KeyError`, `TypeError` or `ValueError` has it skipped.
  unfoldable pub read_entry : Json → Option RestartRecord
  unfolding read_fields
  read_entry (Json.obj entry) = read_fields entry
  read_entry _ = none

  unfoldable pub read_entries : Items → List RestartRecord
  unfolding read_entry
  read_entries Items.nil = []
  read_entries (Items.cons entry rest) =
      let others = read_entries rest in
      elim (read_entry entry) [ none ↦ others | some r ↦ r ∷ others ]

  -- The loop over `raw.get("restarts", [])`: the elements of a list, or the keys of a dict or the
  -- characters of a text, which are all skipped; no other value can be iterated over.
  unfoldable pub load_restarts : Option Json → Loaded
  unfolding read_entries sort
  load_restarts none = loaded []
  load_restarts (some (Json.arr items)) = loaded (sort (read_entries items))
  load_restarts (some (Json.obj _)) = loaded []
  load_restarts (some (Json.text _)) = loaded []
  load_restarts (some _) = raised

  -- `_load`, on a new manager
  unfoldable pub load : HistoryFile → Loaded
  unfolding load_restarts
  load HistoryFile.not_found = loaded []
  load HistoryFile.unreadable = loaded []
  load (HistoryFile.parsed (Json.obj fields)) = load_restarts (get "restarts" fields)
  load (HistoryFile.parsed _) = raised

  -- `RestartManager(config)`: a new manager on the same volume, if its constructor returns
  unfoldable pub recreate : Manager → Option Manager
  recreate m = elim (load m.file) [
    | loaded history ↦ some (record m { history = history })
    | raised ↦ none
  ]

  module _ (isoformat : ℕ → String) where
    read_entry-record_as_dict :
        (r : RestartRecord) → read_entry (record_as_dict isoformat r) ≡ some r
    unfolding read_entry
    read_entry-record_as_dict r = refl

    read_entries-records_as_dicts :
        (rs : List RestartRecord) → read_entries (records_as_dicts isoformat rs) ≡ rs
    unfolding read_entries
    read_entries-records_as_dicts [] = refl
    read_entries-records_as_dicts (r ∷ rs) = ap (λ xs. r ∷ xs) (read_entries-records_as_dicts rs)

    -- Loading a file that was saved gives back the history, sorted by time.
    load-payload :
        (rs : List RestartRecord)
        → load (HistoryFile.parsed (payload isoformat rs)) ≡ loaded (sort rs)
    unfolding load
    load-payload rs = rw (read_entries-records_as_dicts rs)

    -- If the history is in the order of its times and is saved, a manager created anew on that
    -- volume is the manager that saved it.
    pub recreate-save :
        (m : Manager)
        → IsSorted m.history
        → recreate (save isoformat true m) ≡ some (save isoformat true m)
    unfolding recreate save
    recreate-save m h = rw (load-payload m.history, recreate) (rw (sort-of_IsSorted m.history h))
