-- ===== src/Watchdog/Retry.antt =====
-- When a restart is tried at all, and what follows from its being tried only at a transition.
use teslamate_watchdog.Shared.{
  ℕ, String, ◌≡◌, refl, ap, sym, ◌∙◌, ◌↔◌, Bool, false, some, List, [], ◌∷◌, ◌++◌, arith,
}
use teslamate_watchdog.Python.{Python}
use teslamate_watchdog.Config.{Config}
use teslamate_watchdog.StateMachine
use teslamate_watchdog.StateMachine.{State, Observation, Transition, evaluate}
use teslamate_watchdog.StateMachine.Confirmation.{step_reports, step_same}
use teslamate_watchdog.RestartManager.Guard.{MayRestart, evaluate-MayRestart}
use teslamate_watchdog.DockerClient.{ContainerRef, restart}
use teslamate_watchdog.LogClassifier.{Classifier}
use teslamate_watchdog.Recovery.{active}
use teslamate_watchdog.Watchdog.{
  Watchdog, Cycle, decide, probe_auth, react, observe, check_once, run, publish_status,
}
use teslamate_watchdog.Watchdog.Safety.{attempt, react-Effects}

module _ (py : Python) (search : String → Bool) (k : Classifier) (c : Config) where
  -- The transition of `attempt` is one that the state machine reports, under the restart policy.
  pub attempt-MayRestart :
      (env : Cycle) (o : Observation) (d : Watchdog) (t : Transition)
      → (attempt py search k c env o d ≡ some t) ↔ (
          ((StateMachine.step c o d.world.machine).1 ≡ some t)
          × MayRestart c t.current d.database_healthy_streak
              (probe_auth py search k c env t.current)
              env.outside.times.guard
              d.world.restarts)
  unfolding attempt decide
  attempt-MayRestart env o d t =
      let iff =
        evaluate-MayRestart c t.current d.database_healthy_streak
          (probe_auth py search k c env t.current) env.outside.times.guard d.world.restarts in
      (λ h. (ground arith, iff.0 (ground arith)), λ h. ground (arith, h.0, iff.1 h.1))

  -- The state machine reports the transition, and every condition of the restart policy holds.
  abbrev pub CallsForRestart : Cycle → Observation → Watchdog → Transition → Type 0
  CallsForRestart env o d t =
      ((StateMachine.step c o d.world.machine).1 ≡ some t)
      × MayRestart c t.current d.database_healthy_streak (probe_auth py search k c env t.current)
          env.outside.times.guard d.world.restarts

  react_same_state :
      (env : Cycle) (o : Observation) (d : Watchdog)
      → active d.world ≡ false
      → (evaluate o).state ≡ d.world.machine.state
      → let d' = react py search k c env o d in
        (d'.world.posted ≡ d.world.posted)
        × (d'.world.restarts ≡ d.world.restarts)
        × (active d'.world ≡ false)
        × (d'.world.machine.state ≡ d.world.machine.state)
  unfolding react
  react_same_state env o d idle h =
      let same = step_same c o d.world.machine h in
      let quiet = (step_reports c o d.world.machine).0.1 same in
      rw (idle, quiet) (refl, refl, idle, same)

  check_once_same_state :
      (env : Cycle) (d : Watchdog)
      → active d.world ≡ false
      → (evaluate (observe py search k c env d).1).state ≡ d.world.machine.state
      → let d' = check_once py search k c env d in
        (d'.world.posted ≡ d.world.posted)
        × (d'.world.restarts ≡ d.world.restarts)
        × (active d'.world ≡ false)
        × (d'.world.machine.state ≡ d.world.machine.state)
  unfolding observe check_once publish_status
  check_once_same_state env d idle h =
      let (seen, o) = observe py search k c env d in react_same_state env o seen idle h

  -- each cycle, the earliest last, observes the state `s` again
  abbrev pub Persists : State → Watchdog → List Cycle → Type 0
  Persists s d [] = Unit
  Persists s d (env ∷ past) =
      ((evaluate (observe py search k c env (run py search k c d past)).1).state ≡ s)
      × Persists s d past

  -- If no recovery is in progress and every cycle observes the state that the machine is in, no
  -- restart is tried or recorded in any of the cycles, whatever the guard would say.
  pub run-Persists :
      (s : State) (d : Watchdog) (cycles : List Cycle)
      → active d.world ≡ false
      → d.world.machine.state ≡ s
      → Persists s d cycles
      → let d' = run py search k c d cycles in
        (d'.world.posted ≡ d.world.posted)
        × (d'.world.restarts ≡ d.world.restarts)
        × (active d'.world ≡ false)
        × (d'.world.machine.state ≡ s)
  unfolding run
  run-Persists s d [] idle at all = (refl, refl, idle, at)
  run-Persists s d (env ∷ past) idle at all =
      let before = run py search k c d past in
      let (posted, restarts, idle', at') = run-Persists s d past idle at all.1 in
      let now = check_once_same_state env before idle' (all.0 ∙ sym at') in
      (now.0 ∙ posted, now.1 ∙ restarts, now.2, now.3 ∙ at')

  -- If no recovery is in progress and a restart that is tried is sent to Docker but not confirmed,
  -- no recovery begins, and the guard decides on every later restart as if there had been none.
  pub react_unconfirmed :
      (env : Cycle) (o : Observation) (d : Watchdog) (t : Transition) (ref : ContainerRef)
      → active d.world ≡ false
      → attempt py search k c env o d ≡ some t
      → (restart c env.outside.proxy c.teslamate_container).posted ≡ ref.id ∷ []
      → (restart c env.outside.proxy c.teslamate_container).succeeded ≡ false
      → let d' = react py search k c env o d in
        (d'.world.posted ≡ d.world.posted ++ ref.id ∷ [])
        × (active d'.world ≡ false)
        × ((next : Cycle) (s : State) (streak : ℕ)
            → decide py search k c next s streak d'.world.restarts
              ≡ decide py search k c next s streak d.world.restarts)
  react_unconfirmed env o d t ref idle tried sent failed =
      let effects = react-Effects py search k c env o d idle in
      (
        ground (arith, effects, tried, sent),
        ground (arith, effects, tried, failed, idle),
        λ next s streak.
            ap (λ m. decide py search k c next s streak m) (ground (arith, effects, tried, failed)),
      )
