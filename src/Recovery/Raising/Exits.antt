-- ===== src/Recovery/Raising/Exits.antt =====
-- How `begin` of src/recovery.py ends where publishing an event may raise.
use teslamate_watchdog.Shared.{
  String, ◌≡◌, refl, ◌⊎◌, inl, inr, Bool, true, false, List, ◌++◌, is_some, if◌then◌else◌,
}
use teslamate_watchdog.Python.{Python}
use teslamate_watchdog.Config.{Config}
use teslamate_watchdog.StateMachine.{State}
use teslamate_watchdog.RestartManager.{record_restart}
use teslamate_watchdog.DockerClient.{restart}
use teslamate_watchdog.Events.{Event}
use teslamate_watchdog.Recovery.{World, Outside, begin_waiting}
use teslamate_watchdog.Recovery.Raising.{say, begin_failed, after_restart, begin}
use teslamate_watchdog.Recovery.Raising.Rules.{
  Does, Holds, >>=-Does, modify-Does, pure-Does, say-Does,
}

module _ (py : Python) (c : Config) (env : Outside) (s : State) (reason : String) (w0 : World) where
  -- `begin` has returned: the restart that it asked for is recorded and waited for if it was done.
  pub record Returned (b : Bool) (w : World) : Type 0 where
    pub done : b ≡ (restart c env.proxy c.teslamate_container).succeeded
    pub posted : w.posted ≡ w0.posted ++ (restart c env.proxy c.teslamate_container).posted
    pub restarts : w.restarts ≡ (
        if b
        then record_restart py.isoformat env.writable s reason env.times.recorded w0.restarts
        else w0.restarts)
    pub waiting : is_some w.progress ≡ (if b then true else is_some w0.progress)

  -- `begin` has raised: nothing is recorded or waited for, but a restart may have been asked for.
  pub record Raised (w : World) : Type 0 where
    pub posted :
        (w.posted ≡ w0.posted)
        ⊎ (w.posted ≡ w0.posted ++ (restart c env.proxy c.teslamate_container).posted)
    pub restarts : w.restarts ≡ w0.restarts
    pub progress : w.progress ≡ w0.progress

  -- before the restart is asked for, and after
  record Before (w : World) : Type 0 where
    posted : w.posted ≡ w0.posted
    restarts : w.restarts ≡ w0.restarts
    progress : w.progress ≡ w0.progress

  record After (w : World) : Type 0 where
    posted : w.posted ≡ w0.posted ++ (restart c env.proxy c.teslamate_container).posted
    restarts : w.restarts ≡ w0.restarts
    progress : w.progress ≡ w0.progress

  After-Raised : (w : World) → After w → Raised w
  After-Raised w h = record { posted = inr h.posted; restarts = h.restarts; progress = h.progress }

  module _ (raises : List Event → Event → Bool) where
    tell-Before : (e : World → Event) → Does Before (say raises e) (λ _. Before) Raised
    tell-Before e =
        say-Does raises Before Raised e
          (λ w h. record { posted = h.posted; restarts = h.restarts; progress = h.progress })
          (λ w h. record { posted = inl h.posted; restarts = h.restarts; progress = h.progress })

    tell-After : (e : World → Event) → Does After (say raises e) (λ _. After) Raised
    tell-After e =
        say-Does raises After Raised e
          (λ w h. record { posted = h.posted; restarts = h.restarts; progress = h.progress })
          After-Raised

    after_restart-Does :
        (b : Bool) (detail : String)
        → b ≡ (restart c env.proxy c.teslamate_container).succeeded
        → Does After (after_restart raises py c env b detail s reason) Returned Raised
    unfolding after_restart begin_failed begin_waiting
    after_restart-Does true detail e =
        >>=-Does (λ _. Returned true)
          (modify-Does _ (Returned true) (λ w h. record {
            done = e;
            posted = h.posted;
            restarts = rw h.restarts refl;
            waiting = refl;
          }))
          (λ _. pure-Does true Returned (λ w h. h))
    after_restart-Does false detail e =
        >>=-Does (λ _. After)
          (modify-Does _ After
            (λ w h. record { posted = h.posted; restarts = h.restarts; progress = h.progress }))
          (λ _.
            >>=-Does (λ _. After) (tell-After _)
              (λ _. pure-Does false Returned (λ w h. record {
                done = e;
                posted = h.posted;
                restarts = h.restarts;
                waiting = rw h.progress refl;
              })))

    begin-Does : Does Before (begin raises py c env s reason) Returned Raised
    unfolding begin
    begin-Does =
        >>=-Does (λ _. Before) (tell-Before _)
          (λ _.
            >>=-Does (λ _. After)
              (modify-Does _ After (λ w h. record {
                posted = rw h.posted refl;
                restarts = h.restarts;
                progress = h.progress;
              }))
              (λ _. >>=-Does (λ _. After) (tell-After _) (λ _. after_restart-Does _ _ refl)))

    -- Where publishing an event may raise an exception, begin either returns whether the restart
    -- was done, and then it is recorded and waited for exactly if it was, or it raises, and then
    -- nothing is recorded or waited for, though the restart may have been asked for.
    pub begin-exits :
        Holds Returned Raised
          (begin raises py c env s reason w0).0
          (begin raises py c env s reason w0).1
    begin-exits = begin-Does.run w0 (record { posted = refl; restarts = refl; progress = refl })
