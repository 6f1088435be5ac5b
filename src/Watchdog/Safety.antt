-- ===== src/Watchdog/Safety.antt =====
-- When a cycle restarts TeslaMate, and what it leaves of the objects that a restart is about.
use teslamate_watchdog.Shared.{
  ℕ, String, ◌≡◌, refl, inl, inr, Option-cases, Bool, true, false, ◌&&◌, Option, none, some, List,
  [], ◌∷◌, ◌++◌, arith, is_some, if◌then◌else◌,
}
use teslamate_watchdog.Python.{Python}
use teslamate_watchdog.Config.{Config}
use teslamate_watchdog.StateMachine
use teslamate_watchdog.StateMachine.{
  State, recovering, logged_out, logger_unhealthy, teslamate_unreachable, Observation, Transition,
  Machine, new_machine, evaluate, observe_healthy, observe_failure, force_state,
}
use teslamate_watchdog.StateMachine.States.{is, is_in, failure_states, restart_allowed_for_state}
use teslamate_watchdog.RestartManager.{Manager, record_restart}
use teslamate_watchdog.RestartManager.Guard.{evaluate-MayRestart}
use teslamate_watchdog.DockerClient.{restart}
use teslamate_watchdog.LogClassifier.{Classifier}
use teslamate_watchdog.Events.{Event, Failure}
use teslamate_watchdog.Recovery
use teslamate_watchdog.Recovery.{World, active, capture, begin, begin_failed, begin_waiting}
use teslamate_watchdog.Watchdog.{
  Watchdog, Cycle, decide, consider_recovery, announce, on_transition, react, observe,
  publish_status, check_once, probe_auth,
}

module _ (py : Python) (search : String → Bool) (k : Classifier) (c : Config) where
  -- the parts of the world that a restart is about
  abbrev pub SameRestarts : World → World → Type 0
  SameRestarts w w' =
      (w'.posted ≡ w.posted) × (w'.restarts ≡ w.restarts) × (w'.progress ≡ w.progress)

  abbrev pub asked : Cycle → State → Watchdog → Bool
  asked env s d = (decide py search k c env s d.database_healthy_streak d.world.restarts).allowed

  pub capture-SameRestarts :
      (env : Cycle) (s : State) (reason : String) (o : Observation) (w : World)
      → SameRestarts w (capture py c env.outside s reason o w)
        × ((capture py c env.outside s reason o w).machine ≡ w.machine)
  unfolding capture
  capture-SameRestarts env s reason o w = ground arith

  begin-effects :
      (env : Cycle) (s : State) (reason : String) (w : World)
      → let r = restart c env.outside.proxy c.teslamate_container in
        let (w', began) = begin py c env.outside s reason w in
        (began ≡ r.succeeded)
        × (w'.posted ≡ w.posted ++ r.posted)
        × (w'.restarts ≡ (
            if r.succeeded
            then record_restart py.isoformat env.outside.writable s reason
                env.outside.times.recorded w.restarts
            else w.restarts))
        × (is_some w'.progress ≡ (if r.succeeded then true else is_some w.progress))
  unfolding begin begin_failed begin_waiting
  begin-effects env s reason w = ground arith

  decide-restartable :
      (env : Cycle) (s : State) (streak : ℕ) (m : Manager)
      → (decide py search k c env s streak m).allowed ≡ true
      → (restart_allowed_for_state s ≡ true) × (is_in s failure_states ≡ true)
  unfolding decide restart_allowed_for_state is
  decide-restartable env s streak m h =
      let may =
        (evaluate-MayRestart c s streak (probe_auth py search k c env s) env.outside.times.guard
            m).0
          h in
      ground (arith, may.restartable)

  pub consider_recovery-effects :
      (env : Cycle) (s : State) (reason : String) (o : Observation) (streak : ℕ) (w : World)
      → let go = (decide py search k c env s streak w.restarts).allowed in
        let r = restart c env.outside.proxy c.teslamate_container in
        let (w', began) = consider_recovery py search k c env s reason o streak w in
        (began ≡ (go && r.succeeded))
        × (w'.posted ≡ (if go then w.posted ++ r.posted else w.posted))
        × (w'.restarts ≡ (
            if go && r.succeeded
            then record_restart py.isoformat env.outside.writable s reason
                env.outside.times.recorded w.restarts
            else w.restarts))
        × (active w' ≡ (if go && r.succeeded then true else active w))
  unfolding consider_recovery
  consider_recovery-effects env s reason o streak w =
      let captured = capture py c env.outside s reason o w in
      ground (
        arith,
        decide-restartable env s streak w.restarts,
        (capture-SameRestarts env s reason o w).0,
        begin-effects env s reason captured,
      )

  pub announce-SameRestarts :
      (s : State) (restarting : Bool) (base : Failure) (w : World)
      → SameRestarts w (announce py search k c s restarting base w)
        × ((announce py search k c s restarting base w).machine ≡ w.machine)
        × ((announce py search k c s restarting base w).status ≡ w.status)
  unfolding announce
  announce-SameRestarts s restarting base w = ground arith

  -- What a transition that is or is not acted on leaves of the manager.
  abbrev pub after_attempt : Cycle → Option Transition → Manager → Manager
  after_attempt env none m = m
  after_attempt env (some t) m =
      if (restart c env.outside.proxy c.teslamate_container).succeeded
      then record_restart py.isoformat env.outside.writable t.current t.reason
          env.outside.times.recorded m
      else m

  abbrev pub after_posts : Cycle → Option Transition → List String → List String
  after_posts env none ids = ids
  after_posts env (some _) ids = ids ++ (restart c env.outside.proxy c.teslamate_container).posted

  abbrev pub succeeds : Cycle → Option Transition → Bool
  succeeds env none = false
  succeeds env (some _) = (restart c env.outside.proxy c.teslamate_container).succeeded

  abbrev pub allowed_transition : Cycle → Transition → Watchdog → Option Transition
  allowed_transition env t d = if asked env t.current d then some t else none

  -- The transition that a cycle tries a restart for, if there is one: the state machine reports it
  -- in this very cycle, and the guard allows it.
  unfoldable pub attempt : Cycle → Observation → Watchdog → Option Transition
  attempt env o d = elim (StateMachine.step c o d.world.machine).1 [
    | none ↦ none
    | some t ↦ allowed_transition env t d
  ]

  abbrev pub Effects : Cycle → Option Transition → Watchdog → Watchdog → Type 0
  Effects env a d d' =
      (d'.world.posted ≡ after_posts env a d.world.posted)
      × (d'.world.restarts ≡ after_attempt env a d.world.restarts)
      × (active d'.world ≡ (if succeeds env a then true else active d.world))

  on_transition-Effects :
      (env : Cycle) (t : Transition) (o : Observation) (d : Watchdog)
      → Effects env (allowed_transition env t d) d (on_transition py search k c env t o d)
  unfolding on_transition
  on_transition-Effects env t o d =
      let base : Failure = record {
        state = t.current;
        previous_state = t.previous;
        reason = t.reason;
        observation = o;
      } in
      let w = record d.world { events = d.world.events ++ Event.failure_detected base ∷ [] } in
      let streak = d.database_healthy_streak in
      let considered = consider_recovery py search k c env t.current t.reason o streak w in
      ground (
        arith,
        decide-restartable env t.current streak d.world.restarts,
        consider_recovery-effects env t.current t.reason o streak w,
        (announce-SameRestarts t.current considered.1 base considered.0).0,
      )

  -- The reaction to an observation while no recovery is in progress asks Docker for a restart,
  -- records one and enters recovery only for the transition made in that cycle and allowed by the
  -- guard, as the restart of the configured container ends; without one it does none of these.
  pub react-Effects :
      (env : Cycle) (o : Observation) (d : Watchdog)
      → active d.world ≡ false
      → Effects env (attempt env o d) d (react py search k c env o d)
  unfolding react attempt
  react-Effects env o d h =
      let (machine, transition) = StateMachine.step c o d.world.machine in
      elim (Option-cases transition) [
        | inl e ↦ ground arith
        | inr (t, e) ↦ ground (
          arith,
          e,
          on_transition-Effects env t o (record d { world = record d.world { machine = machine } }),
        )
      ]

  -- The reaction to an observation while a recovery is in progress asks for no restart and records
  -- none.
  pub react-active :
      (env : Cycle) (o : Observation) (d : Watchdog)
      → active d.world ≡ true
      → ((react py search k c env o d).world.posted ≡ d.world.posted)
        × ((react py search k c env o d).world.restarts ≡ d.world.restarts)
  unfolding react Recovery.step
  react-active env o d h = ground arith

  pub world-check_once :
      (env : Cycle) (d : Watchdog)
      → let (seen, o) = observe py search k c env d in
        ((check_once py search k c env d).world ≡ (react py search k c env o seen).world)
        × (seen.world ≡ d.world)
  unfolding check_once observe publish_status
  world-check_once env d = (refl, refl)
