-- ===== src/Main/Budget.antt =====
-- The restarts of a watchdog over its whole life, with its container created anew any number of
-- times and cycles that raise, against the limits of the restart manager.
use mathlib.Core.Path.{subst}
use teslamate_watchdog.Shared.{
  ℕ, ◌≤◌, String, ◌≡◌, refl, Bool, true, false, ◌&&◌, Option, none, some, List, [], ◌∷◌, ◌++◌,
  arith, count_if, inl, inr, Bool-cases, length, length-append, ltb, if◌then◌else◌,
}
use teslamate_watchdog.Shared.Json.{Json}
use teslamate_watchdog.Python.{Python}
use teslamate_watchdog.Config.{Config}
use teslamate_watchdog.StateMachine.{Observation}
use teslamate_watchdog.RestartManager.{seconds, HistoryFile, Manager}
use teslamate_watchdog.RestartManager.Persistence.{recreate}
use teslamate_watchdog.RestartManager.Limits.{
  latest, Spaced, in_window, Trace, fresh, restart, recreated, Trace-Spaced, Trace-daily_cap,
}
use teslamate_watchdog.DockerClient
use teslamate_watchdog.DockerClient.Target.{restart-succeeded}
use teslamate_watchdog.MqttClient.{Mqtt}
use teslamate_watchdog.LogClassifier.{Classifier}
use teslamate_watchdog.Recovery.{World}
use teslamate_watchdog.Watchdog.{Watchdog, Cycle, decide, probe_auth, build_watchdog}
use teslamate_watchdog.Watchdog.Raising.{react}
use teslamate_watchdog.Watchdog.Raising.Accounted.{
  Reports, Accounted, spared, asked, react-Accounted,
}
use teslamate_watchdog.Main.World.{world-try_status, world-try_observe}
use teslamate_watchdog.Main.Attempt.{Trouble, try_observe, interrupted, try_rest, attempt}

module _ (py : Python) (search : String → Bool) (k : Classifier) (c : Config)
    (float_of_text : String → Option ℕ) (str_of : Json → String) where
  -- Docker confirms the restart that is asked for between the two worlds.
  abbrev pub restarted : Cycle → World → World → Bool
  restarted env w w' =
      (DockerClient.restart c env.outside.proxy c.teslamate_container).succeeded
      && ltb (length w.posted) (length w'.posted)

  abbrev pub log_after : Cycle → World → World → List ℕ → List ℕ
  log_after env w w' log = if restarted env w w' then env.outside.times.recorded ∷ log else log

  -- The life of a watchdog that began with no history, with the times of its restarts, latest
  -- first: cycles that may raise, though not while they publish that a restart was executed, new
  -- containers on the same volume, and whatever the MQTT client does in between. The clock is not
  -- set back and the history can be written.
  pub data Life : List ℕ → Watchdog → Type 0 where
    built :
        (mqtt : Mqtt)
        → Life [] (build_watchdog (record { history = []; file = HistoryFile.not_found }) mqtt)
    cycle :
        {log : List ℕ} {d : Watchdog}
        → Life log d
        → (env : Cycle) (t : Trouble) → Reports t.event_raises
        → latest log ≤ env.outside.times.guard
        → env.outside.times.guard ≤ env.outside.times.recorded
        → env.outside.writable ≡ true
        → Life
            (log_after env d.world (attempt py search k c t env d).world log)
            (attempt py search k c t env d)
    rebuilt :
        {log : List ℕ} {d : Watchdog} {m : Manager}
        → Life log d
        → recreate float_of_text str_of d.world.restarts ≡ some m
        → (mqtt : Mqtt) → Life log (build_watchdog m mqtt)
    called :
        {log : List ℕ} {d : Watchdog}
        → Life log d
        → (mqtt : Mqtt) → Life log (record d { mqtt = mqtt })

  -- what is accounted for, whatever the streak of the database
  abbrev IsAccounted : Cycle → World → World → Type 0
  IsAccounted env w w' = (streak : ℕ) × Accounted py search k c env streak w w'

  try_rest-IsAccounted :
      (env : Cycle) (t : Trouble)
      → Reports t.event_raises
      → (d : Watchdog) (observed : Option Observation)
      → IsAccounted env d.world (try_rest py search k c t env d observed).world
  unfolding try_rest
  try_rest-IsAccounted env t reports d none = (0, spared refl refl)
  try_rest-IsAccounted env t reports d (some o) =
      let (after, done) = react t.event_raises py search k c env o d in
      rw (world-try_status py c search k t env o (interrupted py search k c t after) done)
        (d.database_healthy_streak, react-Accounted py search k c env t.event_raises reports o d)

  attempt-IsAccounted :
      (env : Cycle) (t : Trouble)
      → Reports t.event_raises
      → (d : Watchdog) → IsAccounted env d.world (attempt py search k c t env d).world
  unfolding attempt
  attempt-IsAccounted env t reports d =
      let (seen, observed) = try_observe py search k c t env d in
      subst (λ w. IsAccounted env w (try_rest py search k c t env seen observed).world)
        (world-try_observe py c search k t env d) (try_rest-IsAccounted env t reports seen observed)

  longer :
      (proxy : DockerClient.Proxy) (before : List String)
      → (DockerClient.restart c proxy c.teslamate_container).succeeded ≡ true
      → ltb
          (length before)
          (length (before ++ (DockerClient.restart c proxy c.teslamate_container).posted))
        ≡ true
  longer proxy before h =
      let (ref, found, posted, done) = (restart-succeeded c proxy c.teslamate_container).0 h in
      rw (posted, length-append before (ref.id ∷ [])) (ground arith)

  Accounted-Trace :
      {log : List ℕ} (env : Cycle) (streak : ℕ) (w w' : World)
      → Accounted py search k c env streak w w'
      → Trace float_of_text str_of py.isoformat c log w.restarts
      → latest log ≤ env.outside.times.guard
      → env.outside.times.guard ≤ env.outside.times.recorded
      → env.outside.writable ≡ true
      → Trace float_of_text str_of py.isoformat c (log_after env w w' log) w'.restarts
  unfolding decide
  Accounted-Trace env streak w w' (spared same same') tr le le' writable =
      let none_now : restarted env w w' ≡ false = ground (arith, same) in rw (none_now, same') tr
  Accounted-Trace env streak w w' (asked s reason allowed posted kept) tr le le' writable =
      elim (Bool-cases (DockerClient.restart c env.outside.proxy c.teslamate_container).succeeded) [
        | inr failed ↦ rw (kept, failed) tr
        | inl done ↦
            rw (kept, posted, longer env.outside.proxy w.posted done, done, writable)
              (restart tr s streak (probe_auth py search k c env s) reason env.outside.times.guard
                env.outside.times.recorded le le' allowed)
      ]

  cycle-Trace :
      {log : List ℕ} (d : Watchdog) (env : Cycle) (t : Trouble)
      → Reports t.event_raises
      → Trace float_of_text str_of py.isoformat c log d.world.restarts
      → latest log ≤ env.outside.times.guard
      → env.outside.times.guard ≤ env.outside.times.recorded
      → env.outside.writable ≡ true
      → let after = (attempt py search k c t env d).world in
        Trace float_of_text str_of py.isoformat c (log_after env d.world after log) after.restarts
  cycle-Trace d env t reports tr le le' writable =
      let (streak, accounted) = attempt-IsAccounted env t reports d in
      Accounted-Trace env streak d.world (attempt py search k c t env d).world accounted tr le le'
        writable

  pub Life-Trace :
      {log : List ℕ} {d : Watchdog}
      → Life log d
      → Trace float_of_text str_of py.isoformat c log d.world.restarts
  unfolding build_watchdog
  Life-Trace (built mqtt) = fresh
  Life-Trace (cycle {d = d} l env t reports le le' w) =
      cycle-Trace d env t reports (Life-Trace l) le le' w
  Life-Trace (rebuilt l e mqtt) = recreated (Life-Trace l) e
  Life-Trace (called l mqtt) = Life-Trace l

  -- In the whole life of a watchdog that began with no history, over cycles that may raise an
  -- exception anywhere but in publishing that a restart was executed, anything that the MQTT
  -- client does, and any number of new containers on the same volume, if the clock is not set back
  -- and the history can be written, no window of 24 hours holds more confirmed restarts than the
  -- daily cap.
  pub Life-daily_cap :
      {log : List ℕ} {d : Watchdog}
      → Life log d
      → (from : ℕ) → count_if (in_window from) log ≤ c.max_restarts_per_24_hours
  Life-daily_cap l from = Trace-daily_cap float_of_text str_of py.isoformat c (Life-Trace l) from

  -- In the whole life of a watchdog that began with no history, over cycles that may raise an
  -- exception anywhere but in publishing that a restart was executed, anything that the MQTT
  -- client does, and any number of new containers on the same volume, if the clock is not set back
  -- and the history can be written, two confirmed restarts that follow one another are at least
  -- the cooldown apart.
  pub Life-Spaced :
      {log : List ℕ} {d : Watchdog} → Life log d → Spaced (seconds c.restart_cooldown_seconds) log
  Life-Spaced l = Trace-Spaced float_of_text str_of py.isoformat c (Life-Trace l)
