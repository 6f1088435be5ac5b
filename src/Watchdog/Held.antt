-- ===== src/Watchdog/Held.antt =====
-- The machine is held at RECOVERING over a whole run of the watchdog.
use teslamate_watchdog.Shared.{
  ℕ, String, ◌≡◌, refl, sym, ◌∙◌, inl, inr, Bool-cases, Option-cases, Bool, false, List, [], ◌∷◌,
  ◌++◌, arith,
}
use teslamate_watchdog.Python.{Python}
use teslamate_watchdog.Config.{Config}
use teslamate_watchdog.StateMachine
use teslamate_watchdog.StateMachine.{
  State, recovering, logged_out, logger_unhealthy, teslamate_unreachable, Observation, Transition,
  Machine, new_machine, evaluate, observe_healthy, observe_failure, force_state,
}
use teslamate_watchdog.StateMachine.States.{is}
use teslamate_watchdog.StateMachine.Confirmation.{step-ne-recovering}
use teslamate_watchdog.RestartManager.{Manager}
use teslamate_watchdog.MqttClient.{Mqtt}
use teslamate_watchdog.LogClassifier.{Classifier}
use teslamate_watchdog.Events.{Event, Failure}
use teslamate_watchdog.Recovery.{World, active, capture}
use teslamate_watchdog.Recovery.Held.{IsHeld, capture-IsHeld, begin-IsHeld, step-IsHeld}
use teslamate_watchdog.Watchdog.{
  Watchdog, Cycle, consider_recovery, on_transition, react, observe, check_once, run,
  build_watchdog,
}
use teslamate_watchdog.Watchdog.Safety.{
  capture-SameRestarts, announce-SameRestarts, world-check_once,
}

module _ (py : Python) (search : String → Bool) (k : Classifier) (c : Config) where
  consider_recovery-IsHeld :
      (env : Cycle) (s : State) (reason : String) (o : Observation) (streak : ℕ) (w : World)
      → IsHeld w
      → active w ≡ false
      → IsHeld (consider_recovery py search k c env s reason o streak w).0
  unfolding consider_recovery
  consider_recovery-IsHeld env s reason o streak w h idle =
      let captured = capture py c env.outside s reason o w in
      let kept = capture-IsHeld py c env.outside s reason o w h in
      let same = (capture-SameRestarts py search k c env s reason o w).0 in
      let begun =
        (begin-IsHeld py c env.outside s reason captured (ground (arith, same, idle))).0 in
      ground (arith, kept.held, kept.busy, begun.held, begun.busy)

  on_transition-IsHeld :
      (env : Cycle) (t : Transition) (o : Observation) (d : Watchdog)
      → IsHeld d.world
      → active d.world ≡ false
      → IsHeld (on_transition py search k c env t o d).world
  unfolding on_transition
  on_transition-IsHeld env t o d h idle =
      let base : Failure = record {
        state = t.current;
        previous_state = t.previous;
        reason = t.reason;
        observation = o;
      } in
      let w = record d.world { events = d.world.events ++ Event.failure_detected base ∷ [] } in
      let streak = d.database_healthy_streak in
      let considered = consider_recovery py search k c env t.current t.reason o streak w in
      let kept =
        consider_recovery-IsHeld env t.current t.reason o streak w
          (record { held = h.held; busy = h.busy }) idle in
      let said = announce-SameRestarts py search k c t.current considered.1 base considered.0 in
      ground (arith, h.held, h.busy, kept.held, kept.busy, said)

  react-IsHeld :
      (env : Cycle) (o : Observation) (d : Watchdog)
      → IsHeld d.world
      → IsHeld (react py search k c env o d).world
  unfolding react
  react-IsHeld env o d h =
      let (machine, transition) = StateMachine.step c o d.world.machine in
      let stepped = record d { world = record d.world { machine = machine } } in
      elim (Bool-cases (active d.world)) [
        | inl busy ↦ rw busy (step-IsHeld py c env.outside o d.world h)
        | inr idle ↦
            let free = step-ne-recovering c o d.world.machine (h.held ∙ idle) in
            let kept : IsHeld stepped.world = record { held = free ∙ sym idle; busy = h.busy } in
            elim (Option-cases transition) [
              | inl e ↦ rw (idle, e) kept
              | inr (t, e) ↦ rw (idle, e) (on_transition-IsHeld env t o stepped kept idle)
            ]
      ]

  pub check_once-IsHeld :
      (env : Cycle) (d : Watchdog) → IsHeld d.world → IsHeld (check_once py search k c env d).world
  check_once-IsHeld env d h =
      let (seen, o) = observe py search k c env d in
      let (after, before) = world-check_once py search k c env d in
      rw after (react-IsHeld env o seen (rw before h))

  -- After any cycles of a watchdog that was built, the state machine stands at RECOVERING exactly
  -- while a recovery is in progress, and the status in memory is one of a recovery in progress
  -- exactly then.
  pub run-IsHeld :
      (restarts : Manager) (mqtt : Mqtt) (cycles : List Cycle)
      → IsHeld (run py search k c (build_watchdog restarts mqtt) cycles).world
  unfolding run build_watchdog new_machine is
  run-IsHeld restarts mqtt [] = record { held = refl; busy = refl }
  run-IsHeld restarts mqtt (env ∷ past) =
      check_once-IsHeld env (run py search k c (build_watchdog restarts mqtt) past)
        (run-IsHeld restarts mqtt past)
