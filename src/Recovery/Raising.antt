-- ===== src/Recovery/Raising.antt =====
-- src/recovery.py where publishing an event may raise: the state is what was done before. `run` of
-- src/main.py catches the exception.
pub mod Rules
pub mod Same
pub mod Committed
pub mod Exits
pub mod Held
use teslamate_watchdog.Shared.{
  ℕ, suc, String, Bool, true, false, Option, none, some, List, [], ◌∷◌, ◌++◌, ltb, leb,
  if◌then◌else◌,
}
use teslamate_watchdog.Shared.Text.{fstring}
use teslamate_watchdog.Python.{Python}
use teslamate_watchdog.Config.{Config}
use teslamate_watchdog.StateMachine.{
  State, healthy, manual_intervention_required, Observation, evaluate, force_state,
}
use teslamate_watchdog.StateMachine.States.{is}
use teslamate_watchdog.RestartManager.{restarts_in_24h}
use teslamate_watchdog.DockerClient.{restart}
use teslamate_watchdog.Events.{Event, Incident}
use teslamate_watchdog.Recovery.{
  recovered, manual_required, waiting_after_restart, confirming_recovery, Progress, World, Outside,
  publish, force, bundle, begin_waiting,
}

-- A call that may raise: none is an exception, and the world is what it left.
abbrev pub Action : Type 0 → Type 0
Action A = World → Option A × World

unfoldable pub pure : {A : Type 0} → A → Action A
pure a w = (some a, w)

unfoldable pub modify : (World → World) → Action (Unit {0})
modify f w = (some tt, f w)

abbrev pub go_on : {A B : Type 0} → Option A → (A → Action B) → Action B
go_on none f w = (none, w)
go_on (some a) f w = f a w

infixl 5 ◌>>=◌ ◌>>◌
unfoldable pub ◌>>=◌ : {A B : Type 0} → Action A → (A → Action B) → Action B
◌>>=◌ m f w = go_on (m w).0 f (m w).1

abbrev pub ◌>>◌ : {B : Type 0} → Action (Unit {0}) → Action B → Action B
m >> k = m >>= λ _. k

-- an `if` statement
unfoldable pub branch : {A : Type 0} → Bool → Action A → Action A → Action A
branch true m n = m
branch false m n = n

-- `raises` says of an event, and of those before it, whether publishing it raises.
module _ (raises : List Event → Event → Bool) where
  -- `self._publish_event(…)`, of an event that may tell of the world
  unfoldable pub say : (World → Event) → Action (Unit {0})
  say e w = if raises w.events (e w) then (none, w) else (some tt, publish (e w) w)

  -- the event of a bundle that is written
  unfoldable pub tell_bundle : State → String → Option Incident → Action (Unit {0})
  unfolding say pure
  tell_bundle s reason none = pure tt
  tell_bundle s reason (some incident) = say (λ w. Event.diagnostics_captured s reason incident)

  module _ (py : Python) (c : Config) (env : Outside) where
    -- `RecoveryController.capture`
    unfoldable pub capture : State → String → Observation → Action (Unit {0})
    unfolding tell_bundle
    capture s reason o = do
      modify (λ w. record w { bundles = w.bundles ++ bundle py c env s reason o w ∷ [] })
      tell_bundle s reason env.incident

    -- `begin` after a restart that was not done
    unfoldable pub begin_failed : String → Action Bool
    unfolding say
    begin_failed detail = do
      let why = fstring ("restart failed: " ∷ detail ∷ [])
      modify (λ w. force manual_intervention_required why (record w { status = manual_required }))
      say (λ w.
          Event.manual_intervention_required none why
            "The watchdog could not restart TeslaMate. Check the socket proxy grants and the container name."
            none)
      pure false

    -- `begin` after the event of the restart
    unfoldable pub after_restart : Bool → String → State → String → Action Bool
    unfolding begin_failed branch
    after_restart succeeded detail s reason =
        branch succeeded (do modify (begin_waiting py c env s reason); pure true)
          (begin_failed detail)

    -- `RecoveryController.begin`
    unfoldable pub begin : State → String → Action Bool
    unfolding after_restart
    begin s reason = do
      let r = restart c env.proxy c.teslamate_container
      say (λ w. Event.recovery_started s reason c.teslamate_container c.post_restart_wait_seconds)
      modify (λ w. record w { posted = w.posted ++ r.posted })
      say (λ w. Event.restart_executed s r.succeeded r.detail c.teslamate_container)
      after_restart r.succeeded r.detail s reason

    -- `_finish_recovered`
    unfoldable pub finish_recovered : Progress → Action (Unit {0})
    unfolding say
    finish_recovered p = do
      modify (λ w.
          force healthy "recovered after restart"
            (record w { progress = none; status = recovered }))
      say (λ w.
          Event.recovered p.trigger_state p.reason (restarts_in_24h env.times.counted w.restarts))

    -- `_finish_manual`
    unfoldable pub finish_manual : Progress → String → Action (Unit {0})
    unfolding say
    finish_manual p detail = do
      let why = fstring ("still failing after restart: " ∷ detail ∷ [])
      modify (λ w.
          force manual_intervention_required why
            (record w { progress = none; status = manual_required }))
      say (λ w.
          Event.manual_intervention_required (some p.trigger_state) why
            "TeslaMate was restarted but is still unhealthy. Check the container logs and the diagnostics bundle."
            (some (restarts_in_24h env.times.counted w.restarts)))

    -- `step`, once the wait is over
    unfoldable pub confirm : Progress → Observation → Action (Unit {0})
    unfolding finish_recovered finish_manual branch
    confirm p o =
        let result = evaluate o in
        let good = record p { healthy_streak = suc p.healthy_streak; failure_streak = 0 } in
        let bad = record p { failure_streak = suc p.failure_streak; healthy_streak = 0 } in
        branch result.inconclusive (pure tt) (
          branch (is result.state healthy)
            (modify (λ w. record w { progress = some good })
              >> branch (leb c.recovery_confirmation_count good.healthy_streak)
                  (finish_recovered good) (pure tt))
            (modify (λ w. record w { progress = some bad })
              >> branch (leb c.failure_confirmation_count bad.failure_streak)
                  (finish_manual bad result.reason) (pure tt)))

    -- `RecoveryController.step`
    unfoldable pub step : Observation → Action (Unit {0})
    unfolding confirm
    step o w = elim w.progress [
      | none ↦ (some tt, w)
      | some p ↦
          if ltb env.times.monotonic p.deadline
          then (some tt, record w { status = waiting_after_restart })
          else confirm p o (record w { status = confirming_recovery })
    ]
