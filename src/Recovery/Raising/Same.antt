-- ===== src/Recovery/Raising/Same.antt =====
-- Where nothing raises, the controller does what the functions of Recovery.antt say.
use teslamate_watchdog.Shared.{
  String, ◌≡◌, refl, Bool, false, some, List, suc, ltb, leb, Option-cases, Bool-cases, inl, inr,
}
use teslamate_watchdog.Python.{Python}
use teslamate_watchdog.Config.{Config}
use teslamate_watchdog.StateMachine.{State, Observation, healthy, evaluate}
use teslamate_watchdog.StateMachine.States.{is}
use teslamate_watchdog.DockerClient.{restart}
use teslamate_watchdog.Events.{Event}
use teslamate_watchdog.Recovery
use teslamate_watchdog.Recovery.{Progress, World, Outside}
use teslamate_watchdog.Recovery.Raising as Raising
use teslamate_watchdog.Recovery.Raising.{pure, modify, branch, say, ◌>>=◌}

-- no event raises
abbrev pub never : List Event → Event → Bool
never past e = false

module _ (py : Python) (c : Config) (env : Outside) where
  pub capture_lem :
      (s : State) (reason : String) (o : Observation) (w : World)
      → Raising.capture never py c env s reason o w
        ≡ (some tt, Recovery.capture py c env s reason o w)
  unfolding Raising.capture Recovery.capture Recovery.bundle Recovery.safe_logs ◌>>=◌ modify pure
  capture_lem s reason o w = elim (Option-cases env.incident) [
    | inl e ↦ rw (e, Recovery.capture, Raising.tell_bundle) refl
    | inr (i, e) ↦ rw (e, Recovery.capture, Raising.tell_bundle) refl
  ]

  pub begin_lem :
      (s : State) (reason : String) (w : World)
      → Raising.begin never py c env s reason w
        ≡ (some (Recovery.begin py c env s reason w).1, (Recovery.begin py c env s reason w).0)
  unfolding Raising.begin Recovery.begin Recovery.begin_failed ◌>>=◌ modify pure
  begin_lem s reason w = elim (Bool-cases (restart c env.proxy c.teslamate_container).succeeded) [
    | inl e ↦ rw e refl
    | inr e ↦ rw e refl
  ]

  confirm_lem :
      (p : Progress) (o : Observation) (w : World)
      → Raising.confirm never py c env p o w ≡ (some tt, Recovery.confirm py c env p o w)
  unfolding Raising.confirm Recovery.confirm ◌>>=◌ modify pure
  confirm_lem p o w = elim (Bool-cases (evaluate o).inconclusive) [
    | inl e ↦ rw e refl
    | inr e ↦ elim (Bool-cases (is (evaluate o).state healthy)) [
      | inl h ↦ elim (Bool-cases (leb c.recovery_confirmation_count (suc p.healthy_streak))) [
        | inl x ↦ rw (e, h, x) refl
        | inr x ↦ rw (e, h, x) refl
      ]
      | inr h ↦ elim (Bool-cases (leb c.failure_confirmation_count (suc p.failure_streak))) [
        | inl x ↦ rw (e, h, x) refl
        | inr x ↦ rw (e, h, x) refl
      ]
    ]
  ]

  pub step_lem :
      (o : Observation) (w : World)
      → Raising.step never py c env o w ≡ (some tt, Recovery.step py c env o w)
  unfolding Raising.step Recovery.step
  step_lem o w = elim (Option-cases w.progress) [
    | inl e ↦ rw (Raising.step, Recovery.step, e) refl
    | inr (p, e) ↦ elim (Bool-cases (ltb env.times.monotonic p.deadline)) [
      | inl x ↦ rw (Raising.step, Recovery.step, e, x) refl
      | inr x ↦ rw (Raising.step, Recovery.step, e, x) (confirm_lem p o _)
    ]
  ]
