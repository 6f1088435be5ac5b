-- ===== src/Recovery/Raising/Committed.antt =====
-- `step` of src/recovery.py sets its state before it publishes.
use teslamate_watchdog.Shared.{
  String, ◌≡◌, refl, ◌∙◌, ap, suc, ltb, Bool, true, false, List, [], Bool-cases, Option-cases, inl,
  inr,
}
use teslamate_watchdog.Python.{Python}
use teslamate_watchdog.Config.{Config}
use teslamate_watchdog.StateMachine.{Observation, evaluate}
use teslamate_watchdog.Events.{Event}
use teslamate_watchdog.Recovery
use teslamate_watchdog.Recovery.{Progress, World, Outside, confirming_recovery}
use teslamate_watchdog.Recovery.Raising.{
  Action, pure, modify, ◌>>=◌, ◌>>◌, branch, say, finish_recovered, finish_manual, confirm, step,
}
use teslamate_watchdog.Recovery.Raising.Same.{never, step_lem}

-- everything but the events that went out
abbrev pub settled : World → World
settled w = record w { events = [] }

-- The actions leave the same world but for the events.
record Agree (m n : Action (Unit {0})) : Type 0 where
  agree : (w : World) → settled (m w).1 ≡ settled (n w).1

Agree-refl : (m : Action (Unit {0})) → Agree m m
Agree-refl m = record { agree = λ w. refl }

modify-Agree :
    (f : World → World) {m n : Action (Unit {0})}
    → Agree m n
    → Agree (modify f >> m) (modify f >> n)
unfolding modify ◌>>=◌
modify-Agree f h = record { agree = λ w. h.agree (f w) }

branch-Agree :
    (b : Bool) {m n m' n' : Action (Unit {0})}
    → Agree m n
    → Agree m' n'
    → Agree (branch b m m') (branch b n n')
unfolding branch
branch-Agree true h h' = h
branch-Agree false h h' = h'

module _ (raises : List Event → Event → Bool) where
  say-Agree : (e : World → Event) → Agree (say raises e) (say never e)
  unfolding say
  say-Agree e = record {
    agree =
        λ w. elim (Bool-cases (raises w.events (e w))) [ inl x ↦ rw x refl | inr x ↦ rw x refl ];
  }

  module _ (py : Python) (c : Config) (env : Outside) where
    finish_recovered-Agree :
        (p : Progress)
        → Agree (finish_recovered raises py c env p) (finish_recovered never py c env p)
    unfolding finish_recovered
    finish_recovered-Agree p = modify-Agree _ (say-Agree _)

    finish_manual-Agree :
        (p : Progress) (detail : String)
        → Agree (finish_manual raises py c env p detail) (finish_manual never py c env p detail)
    unfolding finish_manual
    finish_manual-Agree p detail = modify-Agree _ (say-Agree _)

    confirm-Agree :
        (p : Progress) (o : Observation)
        → Agree (confirm raises py c env p o) (confirm never py c env p o)
    unfolding confirm
    confirm-Agree p o =
        let good = record p { healthy_streak = suc p.healthy_streak; failure_streak = 0 } in
        let bad = record p { failure_streak = suc p.failure_streak; healthy_streak = 0 } in
        branch-Agree _ (Agree-refl (pure tt)) (
          branch-Agree _
            (modify-Agree _ (branch-Agree _ (finish_recovered-Agree good) (Agree-refl (pure tt))))
            (modify-Agree _ (
              branch-Agree _ (finish_manual-Agree bad (evaluate o).reason) (Agree-refl (pure tt)))))

    step-Agree :
        (o : Observation) (w : World)
        → settled (step raises py c env o w).1 ≡ settled (step never py c env o w).1
    unfolding step
    step-Agree o w = elim (Option-cases w.progress) [
      | inl e ↦ rw (step, e) refl
      | inr (p, e) ↦ elim (Bool-cases (ltb env.times.monotonic p.deadline)) [
        | inl x ↦ rw (step, e, x) refl
        | inr x ↦
            rw (step, e, x) ((confirm-Agree p o).agree (record w { status = confirming_recovery }))
      ]
    ]

    -- Whichever events cannot be published, a step of the recovery controller leaves everything
    -- but the events that went out as a step does in which all of them are published: an exception
    -- never leaves a recovery ended by half.
    pub step-commits :
        (o : Observation) (w : World)
        → settled (step raises py c env o w).1 ≡ settled (Recovery.step py c env o w)
    step-commits o w = step-Agree o w ∙ ap (λ r. settled r.1) (step_lem py c env o w)
