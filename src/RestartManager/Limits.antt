-- ===== src/RestartManager/Limits.antt =====
-- Every way in which the guard and the history are used together: restarts that the guard allows
-- are recorded, and the watchdog's container is created anew in between. The limits hold of all
-- restarts ever recorded, also of those that the history has dropped.
use mathlib.Core.Path.{subst}
use teslamate_watchdog.Shared.{
  ℕ, ◌+◌, ◌≤◌, String, ◌≡◌, refl, inl, inr, Bool, true, ◌&&◌, Option, some, List, [], ◌∷◌, ◌++◌,
  arith, leb, le→leb, keep-snoc, keep, count_if, All, All-append, All-keep, All-imp,
  count_if-append, count_if-keep, count_if_mono, Bool-cases,
}
use teslamate_watchdog.Shared.Json.{Json}
use teslamate_watchdog.Config.{Config}
use teslamate_watchdog.StateMachine.{State}
use teslamate_watchdog.RestartManager.{
  seconds, seconds_per_day, history_retention_seconds, RestartRecord, HistoryFile, Manager, prune,
  is_recent, restarts_in_24h, last_restart, evaluate, record_restart,
}
use teslamate_watchdog.RestartManager.Persistence.{IsSorted, load, recreate, recreate-save}
use teslamate_watchdog.RestartManager.Guard.{
  evaluate-MayRestart, made, history-record_restart, last_restart-record_restart,
}

-- the time of the latest restart, or 0
abbrev pub latest : List ℕ → ℕ
latest [] = 0
latest (t ∷ _) = t

-- Two restarts next to one another are at least the cooldown apart.
abbrev pub Spaced : ℕ → List ℕ → Type 0
Spaced cooldown [] = Unit
Spaced cooldown (t ∷ []) = Unit
Spaced cooldown (t ∷ u ∷ ts) = (u + cooldown ≤ t) × Spaced cooldown (u ∷ ts)

-- the 24 hours from `from`, both ends included
abbrev pub in_window : ℕ → ℕ → Bool
in_window from t = leb from t && leb t (from + seconds seconds_per_day)

IsSorted-snoc :
    (rs : List RestartRecord) (x : RestartRecord)
    → IsSorted rs
    → All (λ r. r.at ≤ x.at) rs
    → IsSorted (rs ++ x ∷ [])
IsSorted-snoc [] x h b = (tt, tt)
IsSorted-snoc (r ∷ rs) x h b =
    (All-append (λ y. r.at ≤ y.at) rs (x ∷ []) h.0 (b.0, tt), IsSorted-snoc rs x h.1 b.1)

IsSorted-keep :
    (p : RestartRecord → Bool) (rs : List RestartRecord) → IsSorted rs → IsSorted (keep p rs)
IsSorted-keep p [] h = tt
IsSorted-keep p (r ∷ rs) h = elim (Bool-cases (p r)) [
  | inl e ↦ rw e (All-keep (λ y. r.at ≤ y.at) p rs h.0, IsSorted-keep p rs h.1)
  | inr e ↦ rw e (IsSorted-keep p rs h.1)
]

abbrev retained : ℕ → RestartRecord → Bool
retained now r = leb now (r.at + seconds history_retention_seconds)

-- a restart that counts for the daily cap is not pruned
is_recent-retained :
    (now t : ℕ) → now ≤ t → (r : RestartRecord) → is_recent t r ≡ true → retained now r ≡ true
is_recent-retained now t h r e = ground arith

module _ (float_of_text : String → Option ℕ) (str_of : Json → String) (isoformat : ℕ → String)
    (c : Config) where
  -- The times of the restarts, latest first, with the manager that has recorded them. The guard is
  -- asked before the restart, which is recorded once Docker has answered. The clock is not set back.
  pub data Trace : List ℕ → Manager → Type 0 where
    fresh : Trace [] (record { history = []; file = HistoryFile.not_found })
    restart :
        {log : List ℕ} {m : Manager}
        → Trace log m
        → (s : State) (streak : ℕ) (reachable : Option Bool) (reason : String) (asked now : ℕ)
        → latest log ≤ asked
        → asked ≤ now
        → (evaluate c s streak reachable asked m).allowed ≡ true
        → Trace (now ∷ log) (record_restart isoformat true s reason now m)
    recreated :
        {log : List ℕ} {m m' : Manager}
        → Trace log m
        → recreate float_of_text str_of m ≡ some m'
        → Trace log m'

  record Agrees (log : List ℕ) (m : Manager) : Type 0 where
    sorted : IsSorted m.history
    past : All (λ r. r.at ≤ latest log) m.history
    counted :
        (t : ℕ)
        → latest log ≤ t
        → restarts_in_24h t m ≡ count_if (λ x. leb t (x + seconds seconds_per_day)) log
    ends :
        (t : ℕ) (ts : List ℕ)
        → log ≡ t ∷ ts
        → (r : RestartRecord) × (last_restart m ≡ some r) × (r.at ≡ t)
    saved : recreate float_of_text str_of m ≡ some m

  fresh-Agrees : Agrees [] (record { history = []; file = HistoryFile.not_found })
  unfolding restarts_in_24h recreate load
  fresh-Agrees = record {
    sorted = tt;
    past = tt;
    counted = λ t h. refl;
    ends = λ t ts e. cc;
    saved = refl;
  }

  restart-Agrees :
      {log : List ℕ} {m : Manager} (s : State) (reason : String) (now : ℕ)
      → latest log ≤ now
      → Agrees log m
      → Agrees (now ∷ log) (record_restart isoformat true s reason now m)
  unfolding record_restart prune restarts_in_24h
  restart-Agrees {log} {m} s reason now later h =
      let new = made isoformat s reason now m in
      let kept = keep (retained now) m.history in
      let before : All (λ r. r.at ≤ now) m.history =
        All-imp (λ r. r.at ≤ latest log) (λ r. r.at ≤ now) m.history (λ r le. omega arith) h.past in
      let sorted' : IsSorted (kept ++ new ∷ []) =
        IsSorted-snoc kept new (IsSorted-keep (retained now) m.history h.sorted)
          (All-keep (λ r. r.at ≤ now) (retained now) m.history before) in
      record {
        sorted = rw (history-record_restart isoformat s reason now m true) sorted';
        past = rw (history-record_restart isoformat s reason now m true) (
            All-append (λ r. r.at ≤ now) kept (new ∷ [])
              (All-keep (λ r. r.at ≤ now) (retained now) m.history before) (omega arith, tt));
        counted = λ t le.
            rw
              (
                history-record_restart isoformat s reason now m true,
                count_if-append (is_recent t) kept (new ∷ []),
                count_if-keep (retained now) (is_recent t) m.history (is_recent-retained now t le),
              )
              (ground (arith, h.counted t));
        ends = λ t ts e. (new, last_restart-record_restart isoformat s reason now m true, cc);
        saved =
            recreate-save float_of_text str_of isoformat
              (prune now (record m { history = m.history ++ new ∷ [] }))
              (rw (keep-snoc (retained now) m.history new (le→leb now _ (omega arith))) sorted');
      }

  Trace-Agrees : {log : List ℕ} {m : Manager} → Trace log m → Agrees log m
  Trace-Agrees fresh = fresh-Agrees
  Trace-Agrees (restart tr s streak reachable reason asked now later then_on allowed) =
      restart-Agrees s reason now (omega arith) (Trace-Agrees tr)
  Trace-Agrees (recreated {log = log} tr e) =
      let h = Trace-Agrees tr in subst (λ x. Agrees log x) (cc (h.saved, e)) h

  -- If restarts that the guard allows are recorded, the clock is not set back and the history is
  -- written, two restarts that follow one another are at least the cooldown apart, however often
  -- the container is created anew.
  pub Trace-Spaced :
      {log : List ℕ} {m : Manager} → Trace log m → Spaced (seconds c.restart_cooldown_seconds) log
  Trace-Spaced fresh = tt
  Trace-Spaced (restart {log = []} tr s streak reachable reason asked now later then_on allowed) =
      tt
  Trace-Spaced
        (restart {log = t ∷ ts} {m = m} tr s streak reachable reason asked now later then_on
          allowed) =
      let (r, last, at) = (Trace-Agrees tr).ends t ts refl in
      let may = (evaluate-MayRestart c s streak reachable asked m).0 allowed in
      (omega (arith, at, may.cooled_down r last), Trace-Spaced tr)
  Trace-Spaced (recreated tr e) = Trace-Spaced tr

  in_window-is_recent :
      (from now : ℕ) (log : List ℕ)
      → now ≤ from + seconds seconds_per_day
      → count_if (in_window from) log ≤ count_if (λ x. leb now (x + seconds seconds_per_day)) log
  in_window-is_recent from now log h =
      count_if_mono (in_window from) (λ x. leb now (x + seconds seconds_per_day)) log
        (λ x e. ground arith)

  -- If restarts that the guard allows are recorded, the clock is not set back and the history is
  -- written, no window of 24 hours holds more of them than the daily cap, however often the
  -- container is created anew.
  pub Trace-daily_cap :
      {log : List ℕ} {m : Manager}
      → Trace log m
      → (from : ℕ) → count_if (in_window from) log ≤ c.max_restarts_per_24_hours
  Trace-daily_cap fresh from = omega arith
  Trace-daily_cap
        (restart {log = log} {m = m} tr s streak reachable reason asked now later then_on allowed)
        from =
      let may = (evaluate-MayRestart c s streak reachable asked m).0 allowed in
      ground (
        arith,
        may.under_cap,
        (Trace-Agrees tr).counted asked later,
        Trace-daily_cap tr from,
        in_window-is_recent from asked log,
      )
  Trace-daily_cap (recreated tr e) from = Trace-daily_cap tr from
