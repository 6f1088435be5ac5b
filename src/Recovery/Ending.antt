-- ===== src/Recovery/Ending.antt =====
-- Every recovery that a confirmed restart has begun ends, once enough observations agree.
use teslamate_watchdog.Shared.{
  ℕ, ◌+◌, ◌≤◌, ◌<◌, String, ◌≡◌, refl, ◌≢◌, true, false, none, some, List, [], ◌∷◌, arith, ltb, leb,
  ◌&&◌, All, length, if◌then◌else◌,
}
use teslamate_watchdog.Python.{Python}
use teslamate_watchdog.Config.{Config}
use teslamate_watchdog.StateMachine.{State, healthy, manual_intervention_required, evaluate}
use teslamate_watchdog.StateMachine.States.{is_iff}
use teslamate_watchdog.RestartManager.{seconds}
use teslamate_watchdog.DockerClient.{restart}
use teslamate_watchdog.Recovery.{
  Progress, World, Outside, recovered, manual_required, begin, begin_waiting,
}
use teslamate_watchdog.Recovery.Outcome.{
  Input, ready, healthy_run, failure_run, outcome, steps, steps-outcome,
}

-- a conclusive healthy observation after the wait
abbrev pub ShowsHealth : ℕ → Input → Type 0
ShowsHealth deadline (env, o) =
    (deadline ≤ env.times.monotonic)
    × ((evaluate o).inconclusive ≡ false)
    × ((evaluate o).state ≡ healthy)

-- a conclusive observation of a failure after the wait
abbrev pub ShowsFailure : ℕ → Input → Type 0
ShowsFailure deadline (env, o) =
    (deadline ≤ env.times.monotonic)
    × ((evaluate o).inconclusive ≡ false)
    × ((evaluate o).state ≢ healthy)

module _ (c : Config) (deadline : ℕ) where
  outcome-of_health :
      (inputs : List Input)
      → All (ShowsHealth deadline) inputs
      → (healthy_run (ready deadline inputs) ≡ length inputs)
        × (outcome c (ready deadline inputs) ≡ (
            if ltb 0 (length inputs) && leb c.recovery_confirmation_count (length inputs)
            then some true
            else none))
  unfolding ready healthy_run outcome
  outcome-of_health [] h = (refl, refl)
  outcome-of_health ((env, o) ∷ past) h =
      ground (arith, h.0, outcome-of_health past h.1, is_iff (evaluate o).state healthy)

  outcome-of_failure :
      (inputs : List Input)
      → All (ShowsFailure deadline) inputs
      → (failure_run (ready deadline inputs) ≡ length inputs)
        × (outcome c (ready deadline inputs) ≡ (
            if ltb 0 (length inputs) && leb c.failure_confirmation_count (length inputs)
            then some false
            else none))
  unfolding ready failure_run outcome
  outcome-of_failure [] h = (refl, refl)
  outcome-of_failure ((env, o) ∷ past) h =
      ground (arith, h.0, outcome-of_failure past h.1, is_iff (evaluate o).state healthy)

module _ (py : Python) (c : Config) (env : Outside) (s : State) (reason : String) (w : World) where
  -- the end of the wait after the restart
  abbrev pub deadline_after : ℕ
  deadline_after = env.times.monotonic + seconds c.post_restart_wait_seconds

  abbrev begun : Progress
  begun = record {
    trigger_state = s;
    reason = reason;
    deadline = deadline_after;
    healthy_streak = 0;
    failure_streak = 0;
  }

  progress-begin :
      (restart c env.proxy c.teslamate_container).succeeded ≡ true
      → (begin py c env s reason w).0.progress ≡ some begun
  unfolding begin begin_waiting
  progress-begin h = ground arith

  -- If Docker confirms the restart that begins a recovery, and then one or more observations are
  -- made, all after the wait, conclusive and healthy, as many as the configured number or more,
  -- then the recovery has ended, the machine is HEALTHY and the status says recovered.
  pub begin-recovers :
      (inputs : List Input)
      → (restart c env.proxy c.teslamate_container).succeeded ≡ true
      → All (ShowsHealth deadline_after) inputs
      → 0 < length inputs
      → c.recovery_confirmation_count ≤ length inputs
      → let w' = steps py c (begin py c env s reason w).0 inputs in
        (w'.progress ≡ none) × (w'.machine.state ≡ healthy) × (w'.status ≡ recovered)
  begin-recovers inputs done all some_seen enough =
      let started = (begin py c env s reason w).0 in
      let e : outcome c (ready deadline_after inputs) ≡ some true =
        ground (arith, outcome-of_health c deadline_after inputs all) in
      rw e at (steps-outcome py c started begun inputs (progress-begin done) refl refl)

  -- If Docker confirms the restart that begins a recovery, and then one or more observations are
  -- made, all after the wait, conclusive and failing, as many as the configured number or more,
  -- then the recovery has ended, and the machine and the status call for manual intervention.
  pub begin-gives_up :
      (inputs : List Input)
      → (restart c env.proxy c.teslamate_container).succeeded ≡ true
      → All (ShowsFailure deadline_after) inputs
      → 0 < length inputs
      → c.failure_confirmation_count ≤ length inputs
      → let w' = steps py c (begin py c env s reason w).0 inputs in
        (w'.progress ≡ none)
        × (w'.machine.state ≡ manual_intervention_required)
        × (w'.status ≡ manual_required)
  begin-gives_up inputs done all some_seen enough =
      let started = (begin py c env s reason w).0 in
      let e : outcome c (ready deadline_after inputs) ≡ some false =
        ground (arith, outcome-of_failure c deadline_after inputs all) in
      rw e at (steps-outcome py c started begun inputs (progress-begin done) refl refl)
