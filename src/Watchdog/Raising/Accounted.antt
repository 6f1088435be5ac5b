-- ===== src/Watchdog/Raising/Accounted.antt =====
-- What a reaction posts to Docker and what it records, wherever publishing an event raises but for
-- the event `restart_executed`.
use teslamate_watchdog.Shared.{
  ℕ, String, ◌≡◌, refl, ◌∙◌, ap, not, ◌&&◌, Bool, true, false, Option, none, some, List, [], ◌∷◌,
  ◌++◌, arith, Bool-cases, Option-cases, inl, inr, if◌then◌else◌,
}
use teslamate_watchdog.Python.{Python}
use teslamate_watchdog.Config.{Config}
use teslamate_watchdog.StateMachine
use teslamate_watchdog.StateMachine.{Machine, State, database_unhealthy, Observation, Transition}
use teslamate_watchdog.StateMachine.States.{
  is, is_in, restart_allowed_for_state, failure_states, auth_states,
}
use teslamate_watchdog.RestartManager.{record_restart}
use teslamate_watchdog.DockerClient.{restart}
use teslamate_watchdog.LogClassifier.{Classifier}
use teslamate_watchdog.Events.{Event, Incident, Failure}
use teslamate_watchdog.Recovery
use teslamate_watchdog.Recovery.{World, active, begin_waiting}
use teslamate_watchdog.Recovery.Raising as Controller
use teslamate_watchdog.Recovery.Raising.{pure, modify, branch, say, tell_bundle, ◌>>=◌, ◌>>◌}
use teslamate_watchdog.Recovery.Raising.Rules.{
  Does, >>=-Does, branch-Does, modify-Does, pure-Does, say-Does, certain-Does,
}
use teslamate_watchdog.Recovery.Raising.Committed.{step-commits}
use teslamate_watchdog.Watchdog.{Watchdog, Cycle, decide}
use teslamate_watchdog.Watchdog.Raising.{
  restart_if, consider_recovery, announce, handle_failure, on_transition, react,
}

-- Publishing that a restart was executed does not raise.
abbrev pub Reports : (List Event → Event → Bool) → Type 0
Reports raises =
    (past : List Event) (s : State) (succeeded : Bool) (detail name : String)
    → raises past (Event.restart_executed s succeeded detail name) ≡ false

and_true : (a b : Bool) → a && b ≡ true → b ≡ true
and_true true b h = h
and_true false b h = absurd (cc h)

module _ (py : Python) (search : String → Bool) (k : Classifier) (c : Config) (env : Cycle) where
  -- The world after a reaction: no restart was asked for and none recorded, or one was asked for
  -- in a state in which it is allowed, and recorded if it was done.
  pub data Accounted (streak : ℕ) (w w' : World) : Type 0 where
    spared : w'.posted ≡ w.posted → w'.restarts ≡ w.restarts → Accounted streak w w'
    asked :
        (s : State) (reason : String)
        → (decide py search k c env s streak w.restarts).allowed ≡ true
        → w'.posted ≡ w.posted ++ (restart c env.outside.proxy c.teslamate_container).posted
        → w'.restarts ≡ (
            if (restart c env.outside.proxy c.teslamate_container).succeeded
            then record_restart py.isoformat env.outside.writable s reason
                env.outside.times.recorded w.restarts
            else w.restarts)
        → Accounted streak w w'

  module _ (raises : List Event → Event → Bool) (reports : Reports raises) (streak : ℕ) (w0 : World)
      (s : State) (reason : String) where
    Result : World → Type 0
    Result = Accounted streak w0

    record Spared (w : World) : Type 0 where
      unposted : w.posted ≡ w0.posted
      unrecorded : w.restarts ≡ w0.restarts

    record Posted (w : World) : Type 0 where
      posted : w.posted ≡ w0.posted ++ (restart c env.outside.proxy c.teslamate_container).posted
      unrecorded : w.restarts ≡ w0.restarts

    Spared-Result : (w : World) → Spared w → Result w
    unfolding Result
    Spared-Result w h = spared h.unposted h.unrecorded

    tell-Spared : (e : World → Event) → Does Spared (say raises e) (λ _. Spared) Result
    tell-Spared e =
        say-Does raises Spared Result e
          (λ w h. record { unposted = h.unposted; unrecorded = h.unrecorded }) Spared-Result

    publish-Result :
        (e : Event) (w : World) → Result w → Result (record w { events = w.events ++ e ∷ [] })
    unfolding Result
    publish-Result e w (spared h h') = spared h h'
    publish-Result e w (asked s reason a h h') = asked s reason a h h'

    tell_after : (e : World → Event) → Does Result (say raises e) (λ _. Result) Result
    tell_after e = say-Does raises Result Result e (λ w h. publish-Result (e w) w h) (λ w h. h)

    tell_bundle-Does :
        (written : Option Incident)
        → Does Spared (tell_bundle raises s reason written) (λ _. Spared) Result
    unfolding tell_bundle
    tell_bundle-Does none = pure-Does tt (λ _. Spared) (λ w h. h)
    tell_bundle-Does (some i) = tell-Spared _

    capture-Does :
        (o : Observation)
        → Does Spared (Controller.capture raises py c env.outside s reason o) (λ _. Spared) Result
    unfolding Controller.capture
    capture-Does o =
        >>=-Does (λ _. Spared)
          (modify-Does _ Spared
            (λ w h. record { unposted = h.unposted; unrecorded = h.unrecorded }))
          (λ _. tell_bundle-Does env.outside.incident)

    module _ (allowed : (decide py search k c env s streak w0.restarts).allowed ≡ true) where
      after_restart-Does :
          (succeeded : Bool) (detail : String)
          → (restart c env.outside.proxy c.teslamate_container).succeeded ≡ succeeded
          → Does Posted
              (Controller.after_restart raises py c env.outside succeeded detail s reason)
              (λ _. Result)
              Result
      unfolding Controller.after_restart Controller.begin_failed begin_waiting Result
      after_restart-Does true detail e =
          >>=-Does (λ _. Result)
            (modify-Does _ Result
              (λ w h. asked s reason allowed h.posted (rw (e, h.unrecorded) refl)))
            (λ _. pure-Does true (λ _. Result) (λ w h. h))
      after_restart-Does false detail e =
          >>=-Does (λ _. Result)
            (modify-Does _ Result
              (λ w h. asked s reason allowed h.posted (rw (e, h.unrecorded) refl)))
            (λ _.
              >>=-Does (λ _. Result) (tell_after _) (λ _. pure-Does false (λ _. Result) (λ w h. h)))

      begin-Does :
          Does Spared (Controller.begin raises py c env.outside s reason) (λ _. Result) Result
      unfolding Controller.begin
      begin-Does =
          >>=-Does (λ _. Spared) (tell-Spared _)
            (λ _.
              >>=-Does (λ _. Posted)
                (modify-Does _ Posted
                  (λ w h. record { posted = rw h.unposted refl; unrecorded = h.unrecorded }))
                (λ _.
                  >>=-Does (λ _. Posted)
                    (certain-Does raises Posted Result _ (λ w. reports w.events s _ _ _)
                      (λ w h. record { posted = h.posted; unrecorded = h.unrecorded }))
                    (λ _. after_restart-Does _ _ refl)))

    restart_if-Does :
        (allowed : Bool)
        → (allowed ≡ true → (decide py search k c env s streak w0.restarts).allowed ≡ true)
        → Does Spared (restart_if raises py search k c allowed env s reason) (λ _. Result) Result
    unfolding restart_if
    restart_if-Does true h = begin-Does (h refl)
    restart_if-Does false h = pure-Does false (λ _. Result) Spared-Result

    consider_recovery-Does :
        (o : Observation)
        → Does Spared
            (consider_recovery raises py search k c env s reason o streak)
            (λ _. Result)
            Result
    unfolding consider_recovery
    consider_recovery-Does o = record {
      run = λ w h.
          (>>=-Does (λ _. Spared) (capture-Does o)
              (λ _.
                restart_if-Does _
                  (λ x. rw⁻¹ h.unrecorded (and_true (restart_allowed_for_state s) _ x)))).run
            w h;
    }

    announce-Does :
        (base : Failure) (restarting : Bool)
        → Does Result (announce raises py search k c s base restarting) (λ _. Result) Result
    unfolding announce
    announce-Does base restarting =
        branch-Does (is_in s auth_states && not restarting) (tell_after _) (
          branch-Does (is s database_unhealthy) (tell_after _)
            (pure-Does tt (λ _. Result) (λ w h. h)))

    handle_failure-Does :
        (previous : State) (o : Observation)
        → let t : Transition = record { previous = previous; current = s; reason = reason } in
          Does Spared (handle_failure raises py search k c env t o streak) (λ _. Result) Result
    unfolding handle_failure
    handle_failure-Does previous o =
        let base : Failure = record {
          state = s;
          previous_state = previous;
          reason = reason;
          observation = o;
        } in
        >>=-Does (λ _. Spared) (tell-Spared _)
          (λ _.
            >>=-Does (λ _. Result) (consider_recovery-Does o)
              (λ restarting. announce-Does base restarting))

    holds_either :
        (r : Option (Unit {0})) (w : World)
        → Controller.Rules.Holds (λ _. Result) Result r w
        → Result w
    holds_either none w h = h
    holds_either (some x) w h = h

  module _ (raises : List Event → Event → Bool) (reports : Reports raises) where
    on_transition-Accounted :
        (t : Transition) (o : Observation) (d : Watchdog)
        → Accounted d.database_healthy_streak d.world
            (on_transition raises py search k c env t o d).0.world
    unfolding on_transition Result
    on_transition-Accounted t o d =
        let streak = d.database_healthy_streak in
        elim (Bool-cases (not (is_in t.current failure_states))) [
          | inl e ↦ rw e (spared refl refl)
          | inr e ↦ rw e (
              holds_either raises reports streak d.world t.current t.reason
                (handle_failure raises py search k c env t o streak d.world).0 _
                ((handle_failure-Does raises reports streak d.world t.current t.reason t.previous
                    o).run
                  d.world (record { unposted = refl; unrecorded = refl })))
        ]

    step-Accounted :
        (o : Observation) (d : Watchdog)
        → Accounted d.database_healthy_streak d.world
            (Controller.step raises py c env.outside o d.world).1
    unfolding Recovery.step
    step-Accounted o d =
        let same = step-commits raises py c env.outside o d.world in
        spared (ap (λ w. w.posted) same ∙ ground arith) (ap (λ w. w.restarts) same ∙ ground arith)

    machine-Accounted :
        (streak : ℕ) (m : Machine) (w w' : World)
        → Accounted streak (record w { machine = m }) w'
        → Accounted streak w w'
    machine-Accounted streak m w w' (spared h h') = spared h h'
    machine-Accounted streak m w w' (asked s reason a h h') = asked s reason a h h'

    pub react-Accounted :
        (o : Observation) (d : Watchdog)
        → Accounted d.database_healthy_streak d.world (react raises py search k c env o d).0.world
    unfolding react
    react-Accounted o d = elim (Bool-cases (active d.world)) [
      | inl busy ↦ rw (react, busy) (step-Accounted o d)
      | inr idle ↦ elim (Option-cases (StateMachine.step c o d.world.machine).1) [
        | inl e ↦ rw (react, idle, e) (spared refl refl)
        | inr (t, e) ↦
            let machine = (StateMachine.step c o d.world.machine).0 in
            let stepped = record d { world = record d.world { machine = machine } } in
            rw (react, idle, e)
              (machine-Accounted d.database_healthy_streak machine d.world _
                (on_transition-Accounted t o stepped))
      ]
    ]
