-- ===== src/Recovery/Held.antt =====
-- The state machine is held at RECOVERING exactly while a recovery is in progress.
use teslamate_watchdog.Shared.{String, ◌≡◌, Bool, true, false, arith}
use teslamate_watchdog.Python.{Python}
use teslamate_watchdog.Config.{Config}
use teslamate_watchdog.StateMachine.{State, recovering, Observation, force_state}
use teslamate_watchdog.StateMachine.States.{is}
use teslamate_watchdog.Recovery.{
  Status, waiting_after_restart, confirming_recovery, World, Outside, active, capture, begin,
  begin_failed, begin_waiting, step,
}

-- the statuses of a recovery in progress
abbrev pub is_busy : Status → Bool
is_busy waiting_after_restart = true
is_busy confirming_recovery = true
is_busy _ = false

pub record IsHeld (w : World) : Type 0 where
  pub held : is w.machine.state recovering ≡ active w
  pub busy : is_busy w.status ≡ active w

module _ (py : Python) (c : Config) (env : Outside) where
  pub capture-IsHeld :
      (s : State) (reason : String) (o : Observation) (w : World)
      → IsHeld w
      → IsHeld (capture py c env s reason o w)
  unfolding capture
  capture-IsHeld s reason o w h = ground (arith, h.held, h.busy)

  -- If no recovery is in progress, beginning a restart ends with the machine held at RECOVERING
  -- exactly if one is in progress then, which is what is returned.
  pub begin-IsHeld :
      (s : State) (reason : String) (w : World)
      → active w ≡ false
      → IsHeld (begin py c env s reason w).0
        × ((begin py c env s reason w).1 ≡ active (begin py c env s reason w).0)
  unfolding begin begin_failed begin_waiting force_state is
  begin-IsHeld s reason w h = ground arith

  -- A step of the recovery keeps the machine held at RECOVERING exactly while the recovery is in
  -- progress.
  pub step-IsHeld : (o : Observation) (w : World) → IsHeld w → IsHeld (step py c env o w)
  unfolding step force_state is
  step-IsHeld o w h = ground (arith, h.held, h.busy)
