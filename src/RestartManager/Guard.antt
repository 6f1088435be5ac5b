-- ===== src/RestartManager/Guard.antt =====
-- What the guard of src/restart_manager.py allows, and that a restart closes it.
use teslamate_watchdog.Shared.{
  ℕ, ◌+◌, ◌≤◌, ◌<◌, String, ◌≡◌, ◌↔◌, ◌⊎◌, inl, inr, Option-cases, Bool, true, false, Option, none,
  some, [], ◌∷◌, ◌++◌, arith, leb, last?-snoc, keep-snoc, Bool-cases,
}
use teslamate_watchdog.Config.{Config}
use teslamate_watchdog.StateMachine.{State, logged_out, logger_unhealthy, teslamate_unreachable}
use teslamate_watchdog.StateMachine.States.{value, is_iff, restart_allowed_for_state}
use teslamate_watchdog.RestartManager.{
  seconds, history_retention_seconds, RestartRecord, Manager, save, prune, restarts_in_24h,
  last_restart, seconds_until_cooldown_expires, auth_refusal, evaluate_budget, evaluate,
  record_restart,
}

-- What has to hold for a restart, in terms of the history and not of the guard's tests.
pub record MayRestart (c : Config) (s : State) (streak : ℕ) (reachable : Option Bool) (now : ℕ)
    (m : Manager) : Type 0 where
  pub enabled : c.auto_restart_enabled ≡ true
  pub restartable : (s ≡ logger_unhealthy) ⊎ (s ≡ teslamate_unreachable) ⊎ (s ≡ logged_out)
  pub logout_may_restart :
      s ≡ logged_out → (c.logged_out_restart_enabled ≡ true) × (reachable ≡ some true)
  pub database_confirmed : 2 ≤ streak
  pub cooled_down :
      (r : RestartRecord)
      → last_restart m ≡ some r
      → r.at + seconds c.restart_cooldown_seconds ≤ now
  pub under_cap : restarts_in_24h now m < c.max_restarts_per_24_hours

module _ (c : Config) (s : State) (streak : ℕ) (reachable : Option Bool) (now : ℕ)
    (m : Manager) where
  restart_allowed_for_state_iff :
      (restart_allowed_for_state s ≡ true)
      ↔ ((s ≡ logger_unhealthy) ⊎ (s ≡ teslamate_unreachable) ⊎ (s ≡ logged_out))
  unfolding restart_allowed_for_state
  restart_allowed_for_state_iff = ground arith

  auth_refusal_iff :
      (auth_refusal c s reachable ≡ none)
      ↔ (s ≡ logged_out → (c.logged_out_restart_enabled ≡ true) × (reachable ≡ some true))
  unfolding auth_refusal
  auth_refusal_iff = ground (arith, is_iff s logged_out)

  cooled_down_iff : (seconds_until_cooldown_expires c now m ≡ 0) ↔ (
      (r : RestartRecord)
      → last_restart m ≡ some r
      → r.at + seconds c.restart_cooldown_seconds ≤ now)
  unfolding seconds_until_cooldown_expires
  cooled_down_iff = elim (Option-cases (last_restart m)) [
    | inl e ↦ (λ h r e'. cc, λ h. rw (e, seconds_until_cooldown_expires))
    | inr (r, e) ↦ (λ h x e'. ground arith, λ h. ground (arith, h r e))
  ]

  evaluate_budget_iff : ((evaluate_budget c s streak now m).allowed ≡ true) ↔ (
      (2 ≤ streak)
      × (seconds_until_cooldown_expires c now m ≡ 0)
      × (restarts_in_24h now m < c.max_restarts_per_24_hours))
  unfolding evaluate_budget
  evaluate_budget_iff = ground arith

  -- The guard allows a restart exactly if all conditions of the policy hold: enabled, a
  -- restartable state, for a logout its setting and Tesla's host reachable, the database
  -- confirmed, the cooldown over, and fewer restarts than the cap.
  pub evaluate-MayRestart :
      ((evaluate c s streak reachable now m).allowed ≡ true) ↔ MayRestart c s streak reachable now m
  unfolding evaluate
  evaluate-MayRestart = (
    λ h. record {
      enabled = ground arith;
      restartable = ground (arith, restart_allowed_for_state_iff);
      logout_may_restart = ground (arith, auth_refusal_iff);
      database_confirmed = ground (arith, evaluate_budget_iff);
      cooled_down = ground (arith, cooled_down_iff, evaluate_budget_iff);
      under_cap = ground (arith, evaluate_budget_iff);
    },
    λ h. ground (
      arith,
      h.enabled,
      restart_allowed_for_state_iff.1 h.restartable,
      auth_refusal_iff.1 h.logout_may_restart,
      cooled_down_iff.1 h.cooled_down,
      evaluate_budget_iff,
    ),
  )

module _ (isoformat : ℕ → String) (s : State) (reason : String) (now : ℕ) (m : Manager) where
  -- the record that `record` appends
  abbrev pub made : RestartRecord
  made = record { at = now; state = value s; reason = reason }

  -- The new record outlives the pruning, whether or not the history could be written.
  pub history-record_restart :
      (writable : Bool)
      → (record_restart isoformat writable s reason now m).history
        ≡ (prune now m).history ++ made ∷ []
  unfolding record_restart prune save
  history-record_restart writable =
      ground
        (arith, keep-snoc (λ r. leb now (r.at + seconds history_retention_seconds)) m.history made)

  pub last_restart-record_restart :
      (writable : Bool)
      → last_restart (record_restart isoformat writable s reason now m) ≡ some made
  unfolding last_restart
  last_restart-record_restart writable =
      rw (history-record_restart writable) (last?-snoc (prune now m).history made)

  -- Once a restart is recorded, written or not, the guard refuses every further one, for any
  -- state, until the cooldown is over.
  pub record_restart-evaluate :
      (c : Config) (writable : Bool) (s' : State) (streak : ℕ) (reachable : Option Bool) (later : ℕ)
      → later < now + seconds c.restart_cooldown_seconds
      → (evaluate c s' streak reachable later
          (record_restart isoformat writable s reason now m)).allowed
        ≡ false
  record_restart-evaluate c writable s' streak reachable later h =
      let after = record_restart isoformat writable s reason now m in
      elim (Bool-cases (evaluate c s' streak reachable later after).allowed) [
        | inl allowed ↦ absurd (
            let may = (evaluate-MayRestart c s' streak reachable later after).0 allowed in
            omega (arith, may.cooled_down made (last_restart-record_restart writable)))
        | inr refused ↦ refused
      ]
