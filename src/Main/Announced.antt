-- ===== src/Main/Announced.antt =====
-- The last retained message on the availability topic, over the whole of `main`.
use mathlib.Core.Path.{subst}
use teslamate_watchdog.Shared.{
  ℕ, String, ◌≡◌, refl, sym, ◌∙◌, ap, Bool, true, false, Option, none, some, Bool-cases, any,
  str_eq, arith, List, [], ◌∷◌, Option-cases, List-cases, inl, inr, if◌then◌else◌, not,
}
use teslamate_watchdog.Python.{Python}
use teslamate_watchdog.Config.{Config, topic, availability_topic}
use teslamate_watchdog.StateMachine
use teslamate_watchdog.StateMachine.{Observation, Transition}
use teslamate_watchdog.StateMachine.States.{is_in, failure_states}
use teslamate_watchdog.Recovery.{active}
use teslamate_watchdog.RestartManager.{Manager}
use teslamate_watchdog.MqttClient.{
  Message, Mqtt, new_mqtt, on_disconnect, on_message, publish_raw, publish_state, logger_health,
  warn_if_silent,
}
use teslamate_watchdog.MqttClient.Retained.{retained, retained-append, str_eq-topic}
use teslamate_watchdog.LogClassifier.{Classifier}
use teslamate_watchdog.Events.{Event}
use teslamate_watchdog.Watchdog.{Watchdog, Cycle, status_values, observe, build_watchdog}
use teslamate_watchdog.Watchdog.Raising.{react, on_transition}
use teslamate_watchdog.HaDiscovery.Available.{IsAnnounced, on_connect-IsAnnounced}
use teslamate_watchdog.Main.Attempt.{
  Trouble, try_observe, try_publish, interrupted, try_status, try_rest, attempt,
}
use teslamate_watchdog.Main.{Callback, Step, call, calls, advance, serve}

module _ (c : Config) where
  module _ (py : Python) where
    call-IsAnnounced : (x : Callback) (m : Mqtt) → IsAnnounced c m → IsAnnounced c (call py c x m)
    unfolding call on_disconnect on_message IsAnnounced
    call-IsAnnounced (Callback.connected refused now) m h on =
        on_connect-IsAnnounced c py.dumps refused now m h on
    call-IsAnnounced Callback.disconnected m h on = absurd (cc on)
    call-IsAnnounced (Callback.message t decoded now wall) m h on = h on

    calls-IsAnnounced :
        (xs : List Callback) (m : Mqtt) → IsAnnounced c m → IsAnnounced c (calls py c xs m)
    unfolding calls
    calls-IsAnnounced [] m h = h
    calls-IsAnnounced (x ∷ past) m h =
        call-IsAnnounced x (calls py c past m) (calls-IsAnnounced past m h)

    new-IsAnnounced : IsAnnounced c new_mqtt
    unfolding IsAnnounced
    new-IsAnnounced on = absurd (cc on)

    module _ (search : String → Bool) (k : Classifier) where
      -- the parts of the client that the availability depends on
      abbrev channel : Mqtt → Bool × List Message
      channel m = (m.connected, m.published)

      if-channel :
          (b : Bool) (x y m : Mqtt)
          → channel x ≡ channel m
          → channel y ≡ channel m
          → channel (if b then x else y) ≡ channel m
      if-channel true x y m h h' = h
      if-channel false x y m h h' = h'

      warn-channel : (now : ℕ) (m : Mqtt) → channel (warn_if_silent py.lower c now m) ≡ channel m
      unfolding warn_if_silent
      warn-channel now m = elim (Option-cases m.connected_since) [
        | inl e ↦ rw (warn_if_silent, e) refl
        | inr (t, e) ↦ rw (warn_if_silent, e) (if-channel _ m _ m refl refl)
      ]

      logger_health-channel :
          (now : ℕ) (m : Mqtt) → channel (logger_health py.lower c now m).0 ≡ channel m
      unfolding logger_health
      logger_health-channel now m = elim (List-cases m.cars) [
        | inl e ↦ rw (logger_health, e) (warn-channel now m)
        | inr (car, rest, e) ↦ rw (logger_health, e) refl
      ]

      channel-IsAnnounced : (m n : Mqtt) → channel n ≡ channel m → IsAnnounced c m → IsAnnounced c n
      unfolding IsAnnounced
      channel-IsAnnounced m n e h on =
          ap (λ x. retained (availability_topic c) x.1) e ∙ h (sym (ap (λ x. x.0) e) ∙ on)

      module _ (raises : List Event → Event → Bool) (env : Cycle) (o : Observation) where
        mqtt-on_transition :
            (t : Transition) (d : Watchdog)
            → (on_transition raises py search k c env t o d).0.mqtt ≡ d.mqtt
        unfolding on_transition
        mqtt-on_transition t d = elim (Bool-cases (not (is_in t.current failure_states))) [
          | inl e ↦ rw e refl
          | inr e ↦ rw e refl
        ]

        mqtt-react : (d : Watchdog) → (react raises py search k c env o d).0.mqtt ≡ d.mqtt
        unfolding react
        mqtt-react d = elim (Bool-cases (active d.world)) [
          | inl e ↦ rw (react, e) refl
          | inr e ↦ elim (Option-cases (StateMachine.step c o d.world.machine).1) [
            | inl x ↦ rw (react, e, x) refl
            | inr (t, x) ↦ rw (react, e, x) (mqtt-on_transition t _)
          ]
        ]

      publish_state-IsAnnounced :
          (suffix payload : String) (m : Mqtt)
          → str_eq suffix "availability" ≡ false
          → IsAnnounced c m
          → IsAnnounced c (publish_state c suffix payload m)
      unfolding IsAnnounced availability_topic publish_state publish_raw
      publish_state-IsAnnounced suffix payload m other h on =
          retained-append (topic c "availability") m.published _
          ∙ rw (str_eq-topic c suffix "availability", other) (h on)

      module _ (t : Trouble) where
        try_publish-IsAnnounced :
            (values : List (String × String)) (m : Mqtt)
            → any (λ v. str_eq v.0 "availability") values ≡ false
            → IsAnnounced c m
            → IsAnnounced c (try_publish py search k c t values m)
        unfolding try_publish
        try_publish-IsAnnounced [] m none_such h = h
        try_publish-IsAnnounced ((suffix, payload) ∷ rest) m none_such h =
            let called = calls py c (t.before suffix) m in
            let kept = calls-IsAnnounced (t.before suffix) m h in
            elim (Bool-cases (t.status_raises suffix)) [
              | inl e ↦ rw e kept
              | inr e ↦ rw e (
                  try_publish-IsAnnounced rest (publish_state c suffix payload called)
                    (ground (arith, none_such))
                    (publish_state-IsAnnounced suffix payload called (ground (arith, none_such))
                      kept))
            ]

        try_status-IsAnnounced :
            (env : Cycle) (o : Observation) (d : Watchdog) (done : Bool)
            → IsAnnounced c d.mqtt
            → IsAnnounced c (try_status py search k c t env o d done).mqtt
        unfolding try_status status_values
        try_status-IsAnnounced env o d true h =
            try_publish-IsAnnounced (status_values py search k c env o d) d.mqtt refl h
        try_status-IsAnnounced env o d false h = h

        try_rest-IsAnnounced :
            (env : Cycle) (d : Watchdog) (observed : Option Observation)
            → IsAnnounced c d.mqtt
            → IsAnnounced c (try_rest py search k c t env d observed).mqtt
        unfolding try_rest
        try_rest-IsAnnounced env d none h = calls-IsAnnounced t.meanwhile d.mqtt h
        try_rest-IsAnnounced env d (some o) h =
            let (after, done) = react t.event_raises py search k c env o d in
            try_status-IsAnnounced env o (interrupted py search k c t after) done (
              calls-IsAnnounced t.meanwhile after.mqtt
                (subst (IsAnnounced c) (sym (mqtt-react t.event_raises env o d)) h))

        try_observe-channel :
            (env : Cycle) (d : Watchdog)
            → channel (try_observe py search k c t env d).0.mqtt ≡ channel d.mqtt
        unfolding try_observe observe
        try_observe-channel env d = elim (Bool-cases t.http_raises) [
          | inl e ↦ rw e refl
          | inr e ↦ elim (Bool-cases t.docker_raises) [
            | inl x ↦ rw (e, x) (logger_health-channel env.read_at d.mqtt)
            | inr x ↦ rw (e, x) (logger_health-channel env.read_at d.mqtt)
          ]
        ]

        attempt-IsAnnounced :
            (env : Cycle) (d : Watchdog)
            → IsAnnounced c d.mqtt
            → IsAnnounced c (attempt py search k c t env d).mqtt
        unfolding attempt
        attempt-IsAnnounced env d h =
            let (seen, observed) = try_observe py search k c t env d in
            try_rest-IsAnnounced env seen observed
              (channel-IsAnnounced d.mqtt seen.mqtt (try_observe-channel env d) h)

      advance-IsAnnounced :
          (s : Step) (d : Watchdog)
          → IsAnnounced c d.mqtt
          → IsAnnounced c (advance py c search k s d).mqtt
      unfolding advance
      advance-IsAnnounced (Step.cycle env t) d h = attempt-IsAnnounced t env d h
      advance-IsAnnounced (Step.callback x) d h = call-IsAnnounced x d.mqtt h

      serve-keeps :
          (steps : List Step) (d : Watchdog)
          → IsAnnounced c d.mqtt
          → IsAnnounced c (serve py c search k steps d).mqtt
      unfolding serve
      serve-keeps [] d h = h
      serve-keeps (s ∷ past) d h =
          advance-IsAnnounced s (serve py c search k past d) (serve-keeps past d h)

      -- While main serves, after any cycles, whatever raises an exception in them, and any calls
      -- of the MQTT client in or between them: if the client is connected, the last retained
      -- message that it published on the availability topic is "online".
      pub serve-IsAnnounced :
          (restarts : Manager) (early : List Callback) (steps : List Step)
          → IsAnnounced c
              (serve py c search k steps (build_watchdog restarts (calls py c early new_mqtt))).mqtt
      unfolding build_watchdog
      serve-IsAnnounced restarts early steps =
          serve-keeps steps (build_watchdog restarts (calls py c early new_mqtt))
            (calls-IsAnnounced early new_mqtt new-IsAnnounced)
