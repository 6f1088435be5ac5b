-- ===== src/StateMachine/Decision.antt =====
-- The decision on one observation, against a description of each state by what was observed.
use teslamate_watchdog.Shared.{◌≡◌, ◌≢◌, ◌↔◌, ◌⊎◌, true, false, some, arith}
use teslamate_watchdog.HttpCheck.{HttpCategory}
use teslamate_watchdog.StateMachine.{
  State, starting, healthy, logged_out, logger_unhealthy, teslamate_unreachable, database_unhealthy,
  auth_refresh_failed, recovering, manual_intervention_required, LogSignals, Observation,
  decryption_failed, refresh_failed, evaluate,
}

module _ (o : Observation) where
  -- nothing says that the database or the container is down
  abbrev pub IsUp : Type 0
  IsUp = (o.database_healthy ≢ some false) × (o.teslamate_container_running ≢ some false)

  -- the web interface neither shows the sign-in page nor fails
  abbrev pub Answers : Type 0
  Answers =
      (o.http.category ≡ HttpCategory.authenticated) ⊎ (o.http.category ≡ HttpCategory.unknown)

  abbrev pub LogsShowAuthFailure : Type 0
  LogsShowAuthFailure =
      (decryption_failed o.log_signals ≡ true) ⊎ (refresh_failed o.log_signals ≡ true)

  abbrev pub LoggerIsBad : Type 0
  LoggerIsBad = (o.logger_healthy ≡ some false) ⊎ (o.logger_stale ≡ true)

  -- What an observation must show for each state; three states are never decided on.
  abbrev pub Shows : State → Type 0
  Shows database_unhealthy = o.database_healthy ≡ some false
  Shows teslamate_unreachable =
      (o.database_healthy ≢ some false)
      × ((o.teslamate_container_running ≡ some false)
          ⊎ (o.http.category ≡ HttpCategory.unreachable)
          ⊎ (o.http.category ≡ HttpCategory.application_error))
  Shows logged_out = IsUp × (o.http.category ≡ HttpCategory.logged_out)
  Shows auth_refresh_failed = IsUp × Answers × LogsShowAuthFailure
  Shows logger_unhealthy = IsUp × Answers × ¬ LogsShowAuthFailure × LoggerIsBad
  Shows healthy = IsUp × Answers × ¬ LogsShowAuthFailure × ¬ LoggerIsBad
  Shows starting = ⊥
  Shows recovering = ⊥
  Shows manual_intervention_required = ⊥

  -- An observation meets the description of a state exactly if that state is the one decided on,
  -- for every observation and state.
  pub evaluate-Shows : (s : State) → Shows s ↔ ((evaluate o).state ≡ s)
  unfolding evaluate
  evaluate-Shows s = ground arith

  -- A decision is immediate exactly if the container is stopped and the database not known to be
  -- down; it is inconclusive exactly if all else passes and the HTTP category is unknown.
  pub evaluate_flags :
      (((evaluate o).immediate ≡ true)
        ↔ ((o.database_healthy ≢ some false) × (o.teslamate_container_running ≡ some false)))
      × (((evaluate o).inconclusive ≡ true)
          ↔ (Shows healthy × (o.http.category ≡ HttpCategory.unknown)))
  unfolding evaluate
  evaluate_flags = ground arith

  -- Only an unreachable TeslaMate is decided on without confirmations.
  pub evaluate-immediate :
      (evaluate o).immediate ≡ true → (evaluate o).state ≡ teslamate_unreachable
  unfolding evaluate
  evaluate-immediate h = ground arith

  pub evaluate-ne-recovering : (evaluate o).state ≢ recovering
  evaluate-ne-recovering e = (evaluate-Shows recovering).1 e

-- An observation with other log signals that agree on failures of the session.
abbrev pub with_signals : Observation → LogSignals → Observation
with_signals o s = record o { log_signals = some s }

-- Two sets of log signals that agree on the three failures of the session lead to the same
-- decision.
pub evaluate_ignores_other_signals :
    (o : Observation) (s t : LogSignals)
    → s.auth_refresh_failing ≡ t.auth_refresh_failing
    → s.auth_lost ≡ t.auth_lost
    → s.token_decryption_failure ≡ t.token_decryption_failure
    → evaluate (with_signals o s) ≡ evaluate (with_signals o t)
unfolding evaluate
evaluate_ignores_other_signals o s t p q r = rw (p, q, r)
