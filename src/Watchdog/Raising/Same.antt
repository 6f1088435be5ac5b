-- ===== src/Watchdog/Raising/Same.antt =====
-- Where nothing raises, a reaction is the one of Watchdog.antt.
use teslamate_watchdog.Shared.{
  ℕ, String, ◌≡◌, refl, Bool, true, not, ◌&&◌, some, Option-cases, Bool-cases, inl, inr,
}
use teslamate_watchdog.Python.{Python}
use teslamate_watchdog.Config.{Config}
use teslamate_watchdog.StateMachine
use teslamate_watchdog.StateMachine.{State, database_unhealthy, Observation, Transition}
use teslamate_watchdog.StateMachine.States.{
  is, is_in, restart_allowed_for_state, failure_states, auth_states,
}
use teslamate_watchdog.LogClassifier.{Classifier}
use teslamate_watchdog.Events.{Event, Failure}
use teslamate_watchdog.Recovery.{World, active, publish}
use teslamate_watchdog.Recovery.Raising.{say, ◌>>=◌}
use teslamate_watchdog.Recovery.Raising.Same.{never, capture_lem, begin_lem, step_lem}
use teslamate_watchdog.Watchdog
use teslamate_watchdog.Watchdog.{Cycle, decide}
use teslamate_watchdog.Watchdog.Raising as Raising

module _ (py : Python) (search : String → Bool) (k : Classifier) (c : Config) where
  consider_recovery_lem :
      (env : Cycle) (s : State) (reason : String) (o : Observation) (streak : ℕ) (w : World)
      → Raising.consider_recovery never py search k c env s reason o streak w ≡ (
        some (Watchdog.consider_recovery py search k c env s reason o streak w).1,
        (Watchdog.consider_recovery py search k c env s reason o streak w).0,
      )
  unfolding Raising.consider_recovery Watchdog.consider_recovery ◌>>=◌
  consider_recovery_lem env s reason o streak w =
      rw (capture_lem py c env.outside s reason o w)
        (elim (Bool-cases (restart_allowed_for_state s)) [
          | inr e ↦ rw e refl
          | inl e ↦ elim (Bool-cases (decide py search k c env s streak w.restarts).allowed) [
            | inr x ↦ rw (e, x) refl
            | inl x ↦ rw (e, x) (begin_lem py c env.outside s reason _)
          ]
        ])

  announce_lem :
      (s : State) (base : Failure) (restarting : Bool) (w : World)
      → Raising.announce never py search k c s base restarting w
        ≡ (some tt, Watchdog.announce py search k c s restarting base w)
  unfolding Raising.announce Watchdog.announce say
  announce_lem s base restarting w = elim (Bool-cases (is_in s auth_states && not restarting)) [
    | inl e ↦ rw e refl
    | inr e ↦ elim (Bool-cases (is s database_unhealthy)) [
      | inl x ↦ rw (e, x) refl
      | inr x ↦ rw (e, x) refl
    ]
  ]

  on_transition_lem :
      (env : Cycle) (t : Transition) (o : Observation) (d : Watchdog.Watchdog)
      → Raising.on_transition never py search k c env t o d
        ≡ (Watchdog.on_transition py search k c env t o d, true)
  unfolding Raising.on_transition Watchdog.on_transition ◌>>=◌ say
  on_transition_lem env t o d = elim (Bool-cases (is_in t.current failure_states)) [
    | inr e ↦ rw e refl
    | inl e ↦
        let base : Failure = record {
          state = t.current;
          previous_state = t.previous;
          reason = t.reason;
          observation = o;
        } in
        let w = publish (Event.failure_detected base) d.world in
        let streak = d.database_healthy_streak in
        let considered =
          Watchdog.consider_recovery py search k c env t.current t.reason o streak w in
        rw
          (
            e,
            consider_recovery_lem env t.current t.reason o streak w,
            announce_lem t.current base considered.1 considered.0,
          )
          refl
  ]

  -- A reaction in which nothing raises ends, as `react` of Watchdog.antt does.
  pub react_lem :
      (env : Cycle) (o : Observation) (d : Watchdog.Watchdog)
      → Raising.react never py search k c env o d ≡ (Watchdog.react py search k c env o d, true)
  unfolding Raising.react Watchdog.react
  react_lem env o d = elim (Bool-cases (active d.world)) [
    | inl busy ↦ rw (busy, step_lem py c env.outside o d.world) refl
    | inr idle ↦ elim (Option-cases (StateMachine.step c o d.world.machine).1) [
      | inl e ↦ rw (Raising.react, Watchdog.react, idle, e) refl
      | inr (t, e) ↦ rw (Raising.react, Watchdog.react, idle, e) (on_transition_lem env t o _)
    ]
  ]
