-- ===== src/Watchdog/Raising/Held.antt =====
-- A reaction keeps the machine held exactly while a recovery is in progress, also where it raises.
use teslamate_watchdog.Shared.{
  ℕ, String, sym, ◌∙◌, Bool, false, not, ◌&&◌, Option, none, some, List, Option-cases, Bool-cases,
  inl, inr,
}
use teslamate_watchdog.Python.{Python}
use teslamate_watchdog.Config.{Config}
use teslamate_watchdog.StateMachine
use teslamate_watchdog.StateMachine.{State, database_unhealthy, Observation, Transition}
use teslamate_watchdog.StateMachine.States.{
  is, is_in, failure_states, auth_states, restart_allowed_for_state,
}
use teslamate_watchdog.StateMachine.Confirmation.{step-ne-recovering}
use teslamate_watchdog.LogClassifier.{Classifier}
use teslamate_watchdog.Events.{Event, Failure}
use teslamate_watchdog.Recovery.{World, active}
use teslamate_watchdog.Recovery.Held.{IsHeld}
use teslamate_watchdog.Recovery.Raising as Controller
use teslamate_watchdog.Recovery.Raising.{Action, pure, branch, say, ◌>>=◌, ◌>>◌}
use teslamate_watchdog.Recovery.Raising.Rules.{Does, Holds, >>=-Does, branch-Does, pure-Does}
use teslamate_watchdog.Recovery.Raising.Held.{
  IsIdle, IsBegun, tell, tell-IsIdle, capture-Does, begin-Does, step-Does,
}
use teslamate_watchdog.Watchdog.{Watchdog, Cycle, decide}
use teslamate_watchdog.Watchdog.Raising.{
  restart_if, consider_recovery, announce, handle_failure, act, on_transition, react,
}

module _ (raises : List Event → Event → Bool) (py : Python) (search : String → Bool)
    (k : Classifier) (c : Config) where
  restart_if-Does :
      (allowed : Bool) (env : Cycle) (s : State) (reason : String)
      → Does IsIdle (restart_if raises py search k c allowed env s reason) IsBegun IsHeld
  unfolding restart_if
  restart_if-Does allowed env s reason =
      branch-Does allowed (begin-Does raises py c env.outside s reason)
        (pure-Does false IsBegun (λ w h. record { kept = h.kept; returned = sym h.idle }))

  consider_recovery-Does :
      (env : Cycle) (s : State) (reason : String) (o : Observation) (streak : ℕ)
      → Does IsIdle (consider_recovery raises py search k c env s reason o streak) IsBegun IsHeld
  unfolding consider_recovery
  consider_recovery-Does env s reason o streak = record {
    run = λ w h.
        let allowed =
          restart_allowed_for_state s && (decide py search k c env s streak w.restarts).allowed in
        (>>=-Does (λ _. IsIdle) (capture-Does raises py c env.outside s reason o)
            (λ _. restart_if-Does allowed env s reason)).run
          w h;
  }

  announce-Does :
      (s : State) (base : Failure) (restarting : Bool)
      → Does
          (IsBegun restarting)
          (announce raises py search k c s base restarting)
          (λ _. IsHeld)
          IsHeld
  unfolding announce
  announce-Does s base restarting =
      let stay : Does IsHeld (pure tt) (λ _. IsHeld) IsHeld =
        pure-Does tt (λ _. IsHeld) (λ w h. h) in
      let said =
        branch-Does (is_in s auth_states && not restarting) (tell raises _)
          (branch-Does (is s database_unhealthy) (tell raises _) stay) in
      record { run = λ w h. said.run w h.kept }

  handle_failure-Does :
      (env : Cycle) (t : Transition) (o : Observation) (streak : ℕ)
      → Does IsIdle (handle_failure raises py search k c env t o streak) (λ _. IsHeld) IsHeld
  unfolding handle_failure
  handle_failure-Does env t o streak =
      >>=-Does (λ _. IsIdle) (tell-IsIdle raises _)
        (λ _.
          >>=-Does IsBegun (consider_recovery-Does env t.current t.reason o streak)
            (λ restarting. announce-Does t.current _ restarting))

  Holds-IsHeld : (r : Option (Unit {0})) (w : World) → Holds (λ _. IsHeld) IsHeld r w → IsHeld w
  Holds-IsHeld none w h = h
  Holds-IsHeld (some a) w h = h

  act-IsHeld :
      {P : World → Type 0} (m : Action (Unit {0})) (d : Watchdog)
      → Does P m (λ _. IsHeld) IsHeld
      → P d.world
      → IsHeld (act raises py search k c m d).0.world
  act-IsHeld m d does h = Holds-IsHeld (m d.world).0 (m d.world).1 (does.run d.world h)

  on_transition-IsHeld :
      (env : Cycle) (t : Transition) (o : Observation) (d : Watchdog)
      → IsIdle d.world
      → IsHeld (on_transition raises py search k c env t o d).0.world
  unfolding on_transition
  on_transition-IsHeld env t o d h = elim (Bool-cases (is_in t.current failure_states)) [
    | inr e ↦ rw e h.kept
    | inl e ↦ rw e (
        act-IsHeld (handle_failure raises py search k c env t o d.database_healthy_streak)
          (record d { last_failure = env.failure_iso })
          (handle_failure-Does env t o d.database_healthy_streak) h)
  ]

  pub react-IsHeld :
      (env : Cycle) (o : Observation) (d : Watchdog)
      → IsHeld d.world
      → IsHeld (react raises py search k c env o d).0.world
  unfolding react
  react-IsHeld env o d h = elim (Bool-cases (active d.world)) [
    | inl busy ↦ rw busy (
        act-IsHeld (Controller.step raises py c env.outside o) d
          (step-Does raises py c env.outside o) h)
    | inr idle ↦
        let (machine, transition) = StateMachine.step c o d.world.machine in
        let stepped = record d { world = record d.world { machine = machine } } in
        let free = step-ne-recovering c o d.world.machine (h.held ∙ idle) in
        let kept : IsHeld stepped.world = record { held = free ∙ sym idle; busy = h.busy } in
        elim (Option-cases transition) [
          | inl e ↦ rw (idle, e) kept
          | inr (t, e) ↦
              rw (idle, e)
                (on_transition-IsHeld env t o stepped (record { kept = kept; idle = idle }))
        ]
  ]
