-- ===== src/Watchdog/Announce.antt =====
-- What a transition publishes, and what its incident bundle says of the restart.
use teslamate_watchdog.Shared.{
  ℕ, ◌+◌, String, ◌≡◌, refl, Bool, true, false, not, ◌&&◌, some, [], ◌∷◌, ◌++◌, arith, count_if,
  count_if-append, last?, last?-snoc, if◌then◌else◌,
}
use teslamate_watchdog.Python.{Python}
use teslamate_watchdog.Config.{Config}
use teslamate_watchdog.StateMachine.{State, logged_out, Observation, Transition}
use teslamate_watchdog.StateMachine.States.{is, is_in, auth_states, failure_states}
use teslamate_watchdog.LogClassifier.{Classifier}
use teslamate_watchdog.Events.{Event, Failure, Bundle}
use teslamate_watchdog.Recovery.{
  World, Outside, active, publish, capture, begin, begin_failed, begin_waiting, bundle,
}
use teslamate_watchdog.Watchdog.Safety.{consider_recovery-effects, announce-SameRestarts}
use teslamate_watchdog.Watchdog.{Watchdog, Cycle, consider_recovery, announce, on_transition}

abbrev pub asks_for_tokens : Event → Bool
asks_for_tokens (Event.authentication_required _ _ _) = true
asks_for_tokens _ = false

abbrev pub is_failure : Event → Bool
is_failure (Event.failure_detected _) = true
is_failure _ = false

abbrev one_if : Bool → ℕ
one_if b = if b then 1 else 0

-- how often the user has been asked for fresh tokens
abbrev pub asks : World → ℕ
asks w = count_if asks_for_tokens w.events

asks-publish : (e : Event) (w : World) → asks (publish e w) ≡ asks w + one_if (asks_for_tokens e)
asks-publish e w = rw (count_if-append asks_for_tokens w.events (e ∷ [])) (ground arith)

-- every state of the session is a failure
auth_state-failure : (s : State) → is_in s auth_states ≡ true → is_in s failure_states ≡ true
unfolding is
auth_state-failure s h = ground arith

module _ (py : Python) (search : String → Bool) (k : Classifier) (c : Config) where
  asks-capture :
      (env : Outside) (s : State) (reason : String) (o : Observation) (w : World)
      → asks (capture py c env s reason o w) ≡ asks w
  unfolding capture
  asks-capture env s reason o w = grind (arith, count_if-append)

  asks-begin :
      (env : Outside) (s : State) (reason : String) (w : World)
      → asks (begin py c env s reason w).0 ≡ asks w
  unfolding begin begin_failed begin_waiting
  asks-begin env s reason w = grind (arith, count_if-append)

  asks-consider_recovery :
      (env : Cycle) (s : State) (reason : String) (o : Observation) (streak : ℕ) (w : World)
      → asks (consider_recovery py search k c env s reason o streak w).0 ≡ asks w
  unfolding consider_recovery
  asks-consider_recovery env s reason o streak w =
      let captured = capture py c env.outside s reason o w in
      ground
        (arith, asks-capture env.outside s reason o w, asks-begin env.outside s reason captured)

  asks-announce :
      (s : State) (restarting : Bool) (base : Failure) (w : World)
      → asks (announce py search k c s restarting base w)
        ≡ asks w + one_if (is_in s auth_states && not restarting)
  unfolding announce is
  asks-announce s restarting base w = grind (arith, count_if-append)

  -- If no recovery is in progress, a transition into a state of the session asks the user for
  -- tokens once, unless a recovery is in progress after it; any other transition never does.
  pub on_transition-asks :
      (env : Cycle) (t : Transition) (o : Observation) (d : Watchdog)
      → active d.world ≡ false
      → let d' = on_transition py search k c env t o d in
        asks d'.world ≡ asks d.world + one_if (is_in t.current auth_states && not (active d'.world))
  unfolding on_transition
  on_transition-asks env t o d idle =
      let base : Failure = record {
        state = t.current;
        previous_state = t.previous;
        reason = t.reason;
        observation = o;
      } in
      let w = record d.world { events = d.world.events ++ Event.failure_detected base ∷ [] } in
      let streak = d.database_healthy_streak in
      let considered = consider_recovery py search k c env t.current t.reason o streak w in
      ground (
        arith,
        idle,
        auth_state-failure t.current,
        asks-publish (Event.failure_detected base) d.world,
        asks-consider_recovery env t.current t.reason o streak w,
        consider_recovery-effects py search k c env t.current t.reason o streak w,
        asks-announce t.current considered.1 base considered.0,
        (announce-SameRestarts py search k c t.current considered.1 base considered.0).0,
      )

  bundles-capture :
      (env : Outside) (s : State) (reason : String) (o : Observation) (w : World)
      → (capture py c env s reason o w).bundles ≡ w.bundles ++ bundle py c env s reason o w ∷ []
  unfolding capture
  bundles-capture env s reason o w = ground arith

  -- The incident bundle that is captured for a logout says that no restart was attempted.
  pub capture-logged_out :
      (env : Outside) (reason : String) (o : Observation) (w : World)
      → (b : Bundle) × (last? (capture py c env logged_out reason o w).bundles ≡ some b)
        × (b.state ≡ logged_out)
        × (b.restart_attempted ≡ false)
  unfolding bundle is
  capture-logged_out env reason o w =
      let b = bundle py c env logged_out reason o w in
      (b, rw (bundles-capture env logged_out reason o w) (last?-snoc w.bundles b), refl, refl)
