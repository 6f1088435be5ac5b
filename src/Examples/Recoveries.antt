-- ===== src/Examples/Recoveries.antt =====
-- Restarts and recoveries of src/recovery.py, and what the user is told of them.
use teslamate_watchdog.Shared.{
  [], ℕ, ◌+◌, ◌≡◌, refl, true, false, not, none, some, arith, List, ◌∷◌, ◌++◌, if◌then◌else◌,
}
use teslamate_watchdog.StateMachine
use teslamate_watchdog.StateMachine.{
  State, healthy, logged_out, manual_intervention_required, Transition,
}
use teslamate_watchdog.StateMachine.States.{is, restart_allowed_for_state}
use teslamate_watchdog.RestartManager
use teslamate_watchdog.DockerClient
use teslamate_watchdog.DockerClient.{
  matches, get_json, is_named, resolve_from, resolve, restart_ref, post_result, to_ref, status,
}
use teslamate_watchdog.Recovery.{active, recovered, manual_required, begin}
use teslamate_watchdog.Recovery.Ending.{begin-recovers, begin-gives_up}
use teslamate_watchdog.Recovery.Outcome.{
  Input, Stands, ready, outcome, healthy_run, steps, steps-outcome,
}
use teslamate_watchdog.Watchdog.{Cycle, probe_auth, decide, on_transition, react, build_watchdog}
use teslamate_watchdog.Watchdog.Safety.{attempt}
use teslamate_watchdog.Watchdog.Retry.{react_unconfirmed}
use teslamate_watchdog.Watchdog.Announce.{asks, on_transition-asks}
use teslamate_watchdog.Examples.Data.{
  config, python, is_sign_in, good, signed_out, stopped, proxy, slow_proxy, teslamate_ref,
}
use teslamate_watchdog.Examples.World.{
  classifier, outside, cycle_at, down, at_first, ready_watchdog, progress, busy_world,
  to_unreachable,
}

-- Two good checks after the wait end the recovery; the bad one during it does not count.
abbrev inputs : List Input
inputs =
    (outside 1250 proxy, good) ∷ (outside 1190 proxy, good) ∷ (outside 1100 proxy, stopped) ∷ []

steps-outcome_example :
    Stands busy_world progress
      (good ∷ good ∷ [])
      (some true)
      (steps python config busy_world inputs)
unfolding ready outcome healthy_run StateMachine.evaluate is
steps-outcome_example = steps-outcome python config busy_world progress inputs refl refl refl

-- The restart times out.
abbrev slow_cycle : Cycle
slow_cycle = cycle_at 1060 down slow_proxy

react_unconfirmed_example :
    let d = react python is_sign_in classifier config slow_cycle stopped ready_watchdog in
    (d.world.posted ≡ ready_watchdog.world.posted ++ "4f1d" ∷ [])
    × (active d.world ≡ false)
    × ((next : Cycle) (s : State) (streak : ℕ)
        → decide python is_sign_in classifier config next s streak d.world.restarts
          ≡ decide python is_sign_in classifier config next s streak ready_watchdog.world.restarts)
unfolding build_watchdog attempt decide StateMachine.step StateMachine.evaluate
    StateMachine.observe_failure StateMachine.new_machine StateMachine.required is
    restart_allowed_for_state RestartManager.evaluate RestartManager.evaluate_budget
    RestartManager.auth_refusal RestartManager.seconds_until_cooldown_expires
    RestartManager.restarts_in_24h RestartManager.last_restart DockerClient.restart restart_ref
    matches get_json is_named resolve_from resolve to_ref post_result probe_auth
react_unconfirmed_example =
    react_unconfirmed python is_sign_in classifier config slow_cycle stopped ready_watchdog
      to_unreachable teslamate_ref refl refl refl refl

abbrev to_logged_out : Transition
to_logged_out = record { previous = healthy; current = logged_out; reason = "sign-in page" }

on_transition-asks_example :
    let d =
      on_transition python is_sign_in classifier config slow_cycle to_logged_out signed_out
        ready_watchdog in
    asks d.world ≡ asks ready_watchdog.world + (if not (active d.world) then 1 else 0)
unfolding build_watchdog is
on_transition-asks_example =
    on_transition-asks python is_sign_in classifier config slow_cycle to_logged_out signed_out
      ready_watchdog refl

abbrev good_inputs : List Input
good_inputs = (outside 1250 proxy, good) ∷ (outside 1190 proxy, good) ∷ []

begin-recovers_example :
    let w =
      steps python config
        (begin python config (outside 1060 proxy) logged_out "out" at_first.world).0
        good_inputs in
    (w.progress ≡ none) × (w.machine.state ≡ healthy) × (w.status ≡ recovered)
unfolding DockerClient.restart restart_ref matches get_json is_named resolve_from resolve to_ref
    post_result StateMachine.evaluate
begin-recovers_example =
    begin-recovers python config (outside 1060 proxy) logged_out "out" at_first.world good_inputs
      refl ((omega arith, refl, refl), ((omega arith, refl, refl), tt)) (omega arith) (omega arith)

abbrev bad_inputs : List Input
bad_inputs =
    (outside 1310 proxy, stopped)
    ∷ (outside 1250 proxy, stopped)
    ∷ (outside 1190 proxy, stopped)
    ∷ []

begin-gives_up_example :
    let w =
      steps python config
        (begin python config (outside 1060 proxy) logged_out "out" at_first.world).0
        bad_inputs in
    (w.progress ≡ none)
    × (w.machine.state ≡ manual_intervention_required)
    × (w.status ≡ manual_required)
unfolding DockerClient.restart restart_ref matches get_json is_named resolve_from resolve to_ref
    post_result StateMachine.evaluate
begin-gives_up_example =
    begin-gives_up python config (outside 1060 proxy) logged_out "out" at_first.world bad_inputs
      refl
      (
        (omega arith, refl, λ e. cc e),
        ((omega arith, refl, λ e. cc e), ((omega arith, refl, λ e. cc e), tt)),
      )
      (omega arith) (omega arith)
