-- ===== src/Recovery/Raising/Held.antt =====
-- Wherever publishing an event raises, the machine is held at RECOVERING exactly while a recovery is
-- in progress.
use teslamate_watchdog.Shared.{
  String, ◌≡◌, refl, sym, ◌∙◌, ltb, suc, Bool, true, false, Option, none, some, List, arith,
  Option-cases, Bool-cases, inl, inr,
}
use teslamate_watchdog.Python.{Python}
use teslamate_watchdog.Config.{Config}
use teslamate_watchdog.StateMachine.{State, Observation, force_state, evaluate}
use teslamate_watchdog.StateMachine.States.{is}
use teslamate_watchdog.Events.{Event, Incident}
use teslamate_watchdog.Recovery.{
  Progress, World, Outside, active, begin_waiting, confirming_recovery,
}
use teslamate_watchdog.Recovery.Held.{IsHeld}
use teslamate_watchdog.Recovery.Raising.{
  pure, modify, say, tell_bundle, capture, begin_failed, after_restart, begin, finish_recovered,
  finish_manual, confirm, step,
}
use teslamate_watchdog.Recovery.Raising.Rules.{
  Does, >>=-Does, branch-Does, modify-Does, pure-Does, say-Does,
}

-- the world before a restart
pub record IsIdle (w : World) : Type 0 where
  pub kept : IsHeld w
  pub idle : active w ≡ false

-- the world after one, and what is returned
pub record IsBegun (restarting : Bool) (w : World) : Type 0 where
  pub kept : IsHeld w
  pub returned : restarting ≡ active w

module _ (raises : List Event → Event → Bool) where
  -- an event that is published while the machine is held
  pub tell : (e : World → Event) → Does IsHeld (say raises e) (λ _. IsHeld) IsHeld
  tell e =
      say-Does raises IsHeld IsHeld e (λ w h. record { held = h.held; busy = h.busy }) (λ w h. h)

  -- an event that is published before a restart is in progress
  pub tell-IsIdle : (e : World → Event) → Does IsIdle (say raises e) (λ _. IsIdle) IsHeld
  tell-IsIdle e =
      say-Does raises IsIdle IsHeld e
        (λ w h. record { kept = record { held = h.kept.held; busy = h.kept.busy }; idle = h.idle })
        (λ w h. h.kept)

  tell_bundle-Does :
      (s : State) (reason : String) (written : Option Incident)
      → Does IsIdle (tell_bundle raises s reason written) (λ _. IsIdle) IsHeld
  unfolding tell_bundle
  tell_bundle-Does s reason none = pure-Does tt (λ _. IsIdle) (λ w h. h)
  tell_bundle-Does s reason (some i) = tell-IsIdle _

  module _ (py : Python) (c : Config) (env : Outside) where
    pub capture-Does :
        (s : State) (reason : String) (o : Observation)
        → Does IsIdle (capture raises py c env s reason o) (λ _. IsIdle) IsHeld
    unfolding capture
    capture-Does s reason o =
        >>=-Does (λ _. IsIdle)
          (modify-Does _ IsIdle (λ w h. record {
            kept = record { held = h.kept.held; busy = h.kept.busy };
            idle = h.idle;
          }))
          (λ _. tell_bundle-Does s reason env.incident)

    begin_failed-Does :
        (detail : String) → Does IsIdle (begin_failed raises py c env detail) IsBegun IsHeld
    unfolding begin_failed force_state is
    begin_failed-Does detail =
        >>=-Does (λ _. IsIdle)
          (modify-Does _ IsIdle (λ w h. record {
            kept = record { held = ground (arith, h.idle); busy = ground (arith, h.idle) };
            idle = h.idle;
          }))
          (λ _.
            >>=-Does (λ _. IsIdle) (tell-IsIdle _)
              (λ _.
                pure-Does false IsBegun (λ w h. record { kept = h.kept; returned = sym h.idle })))

    after_restart-Does :
        (succeeded : Bool) (detail : String) (s : State) (reason : String)
        → Does IsIdle (after_restart raises py c env succeeded detail s reason) IsBegun IsHeld
    unfolding after_restart begin_waiting force_state is
    after_restart-Does true detail s reason =
        >>=-Does (λ _. IsBegun true)
          (modify-Does _ (IsBegun true)
            (λ w h. record { kept = record { held = refl; busy = refl }; returned = refl }))
          (λ _. pure-Does true IsBegun (λ w h. h))
    after_restart-Does false detail s reason = begin_failed-Does detail

    pub begin-Does :
        (s : State) (reason : String) → Does IsIdle (begin raises py c env s reason) IsBegun IsHeld
    unfolding begin
    begin-Does s reason =
        >>=-Does (λ _. IsIdle) (tell-IsIdle _)
          (λ _.
            >>=-Does (λ _. IsIdle)
              (modify-Does _ IsIdle (λ w h. record {
                kept = record { held = h.kept.held; busy = h.kept.busy };
                idle = h.idle;
              }))
              (λ _. >>=-Does (λ _. IsIdle) (tell-IsIdle _) (λ _. after_restart-Does _ _ s reason)))

    finish_recovered-Does :
        (p : Progress) (P : World → Type 0)
        → Does P (finish_recovered raises py c env p) (λ _. IsHeld) IsHeld
    unfolding finish_recovered force_state is
    finish_recovered-Does p P =
        >>=-Does (λ _. IsHeld) (modify-Does _ IsHeld (λ w h. record { held = refl; busy = refl }))
          (λ _. tell _)

    finish_manual-Does :
        (p : Progress) (detail : String) (P : World → Type 0)
        → Does P (finish_manual raises py c env p detail) (λ _. IsHeld) IsHeld
    unfolding finish_manual force_state is
    finish_manual-Does p detail P =
        >>=-Does (λ _. IsHeld) (modify-Does _ IsHeld (λ w h. record { held = refl; busy = refl }))
          (λ _. tell _)

    -- the world in which a recovery is being confirmed
    record IsConfirming (w : World) : Type 0 where
      kept : IsHeld w
      recovering : active w ≡ true

    set_progress-Does :
        (p : Progress)
        → Does IsConfirming (modify (λ w. record w { progress = some p })) (λ _. IsHeld) IsHeld
    set_progress-Does p =
        modify-Does _ IsHeld
          (λ w h. record { held = h.kept.held ∙ h.recovering; busy = h.kept.busy ∙ h.recovering })

    stay : Does IsHeld (pure tt) (λ _. IsHeld) IsHeld
    stay = pure-Does tt (λ _. IsHeld) (λ w h. h)

    confirm-Does :
        (p : Progress) (o : Observation)
        → Does IsConfirming (confirm raises py c env p o) (λ _. IsHeld) IsHeld
    unfolding confirm
    confirm-Does p o =
        let good = record p { healthy_streak = suc p.healthy_streak; failure_streak = 0 } in
        let bad = record p { failure_streak = suc p.failure_streak; healthy_streak = 0 } in
        branch-Does _ (pure-Does tt (λ _. IsHeld) (λ w h. h.kept)) (
          branch-Does _
            (>>=-Does (λ _. IsHeld) (set_progress-Does good)
              (λ _. branch-Does _ (finish_recovered-Does good IsHeld) stay))
            (>>=-Does (λ _. IsHeld) (set_progress-Does bad)
              (λ _. branch-Does _ (finish_manual-Does bad (evaluate o).reason IsHeld) stay)))

    pub step-Does : (o : Observation) → Does IsHeld (step raises py c env o) (λ _. IsHeld) IsHeld
    unfolding step
    step-Does o = record {
      run = λ w h. elim (Option-cases w.progress) [
        | inl e ↦ rw (step, e) h
        | inr (p, e) ↦ elim (Bool-cases (ltb env.times.monotonic p.deadline)) [
          | inl early ↦ rw (step, e, early) (record { held = h.held; busy = ground (arith, e) })
          | inr late ↦
              rw (step, e, late)
                ((confirm-Does p o).run (record w { status = confirming_recovery })
                  (record {
                    kept = record { held = h.held; busy = ground (arith, e) };
                    recovering = ground (arith, e);
                  }))
        ]
      ];
    }
