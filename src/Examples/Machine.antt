-- ===== src/Examples/Machine.antt =====
-- The decisions and the state machine of src/state_machine.py on histories.
use teslamate_watchdog.Shared.{[], ◌≡◌, refl, ◌↔◌, true, List, ◌∷◌, arith}
use teslamate_watchdog.StateMachine.{
  starting, logged_out, Observation, LogSignals, evaluate, required,
}
use teslamate_watchdog.StateMachine.States.{is}
use teslamate_watchdog.StateMachine.Decision.{Shows, evaluate-Shows}
use teslamate_watchdog.StateMachine.Confirmation.{
  trailing, needed, confirmed, run, run-confirmed, run-reaches,
}
use teslamate_watchdog.Examples.Data.{config, no_signals, good, signed_out, vague, stopped}

-- Two logouts, an inconclusive check, and a third logout, after the machine was healthy.
abbrev history : List Observation
history = signed_out ∷ vague ∷ signed_out ∷ signed_out ∷ good ∷ good ∷ []

confirmed-history : confirmed config starting history ≡ logged_out
unfolding confirmed evaluate is needed required trailing
confirmed-history = refl

run-confirmed_example : (run config starting history).state ≡ confirmed config starting history
run-confirmed_example = run-confirmed config starting history (λ e. cc e)

run-reaches_example :
    (run config starting (signed_out ∷ signed_out ∷ signed_out ∷ stopped ∷ [])).state ≡ logged_out
unfolding evaluate needed required is
run-reaches_example =
    run-reaches config starting logged_out signed_out (signed_out ∷ signed_out ∷ []) (stopped ∷ [])
      (λ e. cc e) ((refl, refl), ((refl, refl), ((refl, refl), tt))) (omega arith)

evaluate-Shows_example : Shows signed_out logged_out ↔ ((evaluate signed_out).state ≡ logged_out)
evaluate-Shows_example = evaluate-Shows signed_out logged_out

abbrev noisy : LogSignals
noisy = record no_signals { database_failure = true; refresh_success = true }
