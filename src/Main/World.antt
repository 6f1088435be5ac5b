-- ===== src/Main/World.antt =====
-- The world that a cycle that may raise leaves is the one after its reaction.
use teslamate_watchdog.Shared.{◌≡◌, refl, Bool, true, false, Bool-cases, inl, inr, String}
use teslamate_watchdog.Python.{Python}
use teslamate_watchdog.Config.{Config}
use teslamate_watchdog.StateMachine.{Observation}
use teslamate_watchdog.LogClassifier.{Classifier}
use teslamate_watchdog.Watchdog.{Watchdog, Cycle, observe}
use teslamate_watchdog.Main.Attempt.{Trouble, try_observe, try_status}

module _ (py : Python) (c : Config) (search : String → Bool) (k : Classifier) (t : Trouble) where
  pub world-try_status :
      (env : Cycle) (o : Observation) (d : Watchdog) (done : Bool)
      → (try_status py search k c t env o d done).world ≡ d.world
  unfolding try_status
  world-try_status env o d true = refl
  world-try_status env o d false = refl

  pub world-try_observe :
      (env : Cycle) (d : Watchdog) → (try_observe py search k c t env d).0.world ≡ d.world
  unfolding try_observe observe
  world-try_observe env d = elim (Bool-cases t.http_raises) [
    | inl e ↦ rw e refl
    | inr e ↦ elim (Bool-cases t.docker_raises) [ inl x ↦ rw (e, x) refl | inr x ↦ rw (e, x) refl ]
  ]
