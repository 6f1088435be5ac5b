-- ===== src/Watchdog/Raising.antt =====
-- `_on_transition` and the middle of `check_once` of src/main.py where publishing an event may raise.
pub mod Same
pub mod Held
pub mod Accounted
use teslamate_watchdog.Shared.{
  ℕ, String, Bool, true, false, not, ◌&&◌, Option, none, some, List, [], ◌∷◌, is_some,
  if◌then◌else◌,
}
use teslamate_watchdog.Python.{Python}
use teslamate_watchdog.Config.{Config}
use teslamate_watchdog.StateMachine
use teslamate_watchdog.StateMachine.{State, database_unhealthy, Observation, Transition}
use teslamate_watchdog.StateMachine.States.{
  is, is_in, restart_allowed_for_state, failure_states, auth_states,
}
use teslamate_watchdog.LogClassifier.{Classifier}
use teslamate_watchdog.Events.{Event, Failure}
use teslamate_watchdog.Recovery.{World, active}
use teslamate_watchdog.Recovery.Raising as Controller
use teslamate_watchdog.Recovery.Raising.{Action, pure, branch, say, ◌>>=◌, ◌>>◌}
use teslamate_watchdog.Watchdog.{Watchdog, Cycle, auth_action_message, decide}

module _ (raises : List Event → Event → Bool) (py : Python) (search : String → Bool)
    (k : Classifier) (c : Config) where
  -- what follows the capture in `_consider_recovery`
  unfoldable pub restart_if : Bool → Cycle → State → String → Action Bool
  unfolding branch pure
  restart_if allowed env s reason =
      branch allowed (Controller.begin raises py c env.outside s reason) (pure false)

  -- `_consider_recovery`; the guard decides before the capture
  unfoldable pub consider_recovery : Cycle → State → String → Observation → ℕ → Action Bool
  unfolding restart_if
  consider_recovery env s reason o streak w =
      let allowed =
        restart_allowed_for_state s && (decide py search k c env s streak w.restarts).allowed in
      (Controller.capture raises py c env.outside s reason o >> restart_if allowed env s reason) w

  -- the event for the human, if there is one, at the end of `_on_transition`
  unfoldable pub announce : State → Failure → Bool → Action (Unit {0})
  unfolding branch pure
  announce s base restarting =
      branch (is_in s auth_states && not restarting)
        (say raises (λ w. Event.authentication_required base auth_action_message c.teslamate_url))
        (branch (is s database_unhealthy)
          (say raises (λ w.
            Event.database_unhealthy base
              "Check the TeslaMate PostgreSQL container. The watchdog never restarts the database."))
          (pure tt))

  -- `_on_transition` into a state of failure, after the time of it is noted
  unfoldable pub handle_failure : Cycle → Transition → Observation → ℕ → Action (Unit {0})
  unfolding announce
  handle_failure env t o streak =
      let base : Failure = record {
        state = t.current;
        previous_state = t.previous;
        reason = t.reason;
        observation = o;
      } in
      say raises (λ w. Event.failure_detected base)
      >> (consider_recovery env t.current t.reason o streak >>= announce t.current base)

  -- The watchdog after an action on its world, and whether it has ended.
  abbrev pub act : Action (Unit {0}) → Watchdog → Watchdog × Bool
  act m d = let (r, w) = m d.world in (record d { world = w }, is_some r)

  -- `_on_transition`
  unfoldable pub on_transition : Cycle → Transition → Observation → Watchdog → Watchdog × Bool
  unfolding handle_failure
  on_transition env t o d =
      if not (is_in t.current failure_states)
      then (d, true)
      else act (handle_failure env t o d.database_healthy_streak)
          (record d { last_failure = env.failure_iso })

  -- the middle of `check_once`, and whether it has ended
  unfoldable pub react : Cycle → Observation → Watchdog → Watchdog × Bool
  react env o d =
      let (machine, transition) = StateMachine.step c o d.world.machine in
      let stepped = record d { world = record d.world { machine = machine } } in
      if active d.world
      then act (Controller.step raises py c env.outside o) d
      else elim transition [ none ↦ (stepped, true) | some t ↦ on_transition env t o stepped ]
