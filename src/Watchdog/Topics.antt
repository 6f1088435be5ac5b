-- ===== src/Watchdog/Topics.antt =====
-- What a cycle publishes on the status topics of the watchdog. An empty retained payload would
-- delete its topic.
use mathlib.Core.List.{append_assoc, append-nil}
use teslamate_watchdog.Shared.{
  ℕ, String, ◌≡◌, refl, sym, ◌∙◌, ◌≢◌, Bool, true, false, Option, none, some, List, [], ◌∷◌, ◌++◌,
  arith, All, map, str_eq, eq_iff, or_default, if◌then◌else◌, inl, inr, Bool-cases, Option-cases,
  length,
}
use teslamate_watchdog.Shared.Text.{str, str-nonempty, if-nonempty}
use teslamate_watchdog.Python.{Python}
use teslamate_watchdog.Config.{Config}
use teslamate_watchdog.StateMachine.{
  State, starting, healthy, logged_out, logger_unhealthy, teslamate_unreachable, database_unhealthy,
  auth_refresh_failed, recovering, manual_intervention_required, Observation,
}
use teslamate_watchdog.StateMachine.States.{value, is}
use teslamate_watchdog.RestartManager.{Manager, last_restart, last_restart_iso}
use teslamate_watchdog.MqttClient.{Mqtt, publish_state, publish_raw}
use teslamate_watchdog.MqttClient.Retained.{state_message}
use teslamate_watchdog.LogClassifier.{Classifier}
use teslamate_watchdog.Recovery.{
  Status, idle, waiting_after_restart, confirming_recovery, recovered, manual_required,
  status_value,
}
use teslamate_watchdog.Watchdog.{
  Watchdog, Cycle, payload_unset, tristate, session, status_values, publish_all, publish_status,
}

value-nonempty : (s : State) → value s ≢ ""
value-nonempty starting e = cc e
value-nonempty healthy e = cc e
value-nonempty logged_out e = cc e
value-nonempty logger_unhealthy e = cc e
value-nonempty teslamate_unreachable e = cc e
value-nonempty database_unhealthy e = cc e
value-nonempty auth_refresh_failed e = cc e
value-nonempty recovering e = cc e
value-nonempty manual_intervention_required e = cc e

tristate-nonempty : (b : Option Bool) → tristate b ≢ ""
unfolding tristate
tristate-nonempty none e = cc e
tristate-nonempty (some true) e = cc e
tristate-nonempty (some false) e = cc e

status_value-nonempty : (s : Status) → status_value s ≢ ""
status_value-nonempty idle e = cc e
status_value-nonempty waiting_after_restart e = cc e
status_value-nonempty confirming_recovery e = cc e
status_value-nonempty recovered e = cc e
status_value-nonempty manual_required e = cc e

status_code-nonempty :
    (code : Option ℕ) → elim code as (λ x. String) [ none ↦ "unknown" | some n ↦ str n ] ≢ ""
status_code-nonempty none e = cc e
status_code-nonempty (some n) e = str-nonempty n e

last_failure-nonempty : (s : String) → (if str_eq s "" then payload_unset else s) ≢ ""
last_failure-nonempty s e = elim (Bool-cases (str_eq s "")) [
  | inl unset ↦ cc (rw unset at e)
  | inr set ↦ ground (arith, eq_iff s "")
]

last_restart-nonempty :
    (isoformat : ℕ → String) (m : Manager)
    → ((t : ℕ) → isoformat t ≢ "")
    → or_default (last_restart_iso isoformat m) payload_unset ≢ ""
unfolding last_restart_iso
last_restart-nonempty isoformat m iso e = elim (Option-cases (last_restart m)) [
  | inl none_yet ↦ cc (rw (or_default, none_yet) at e)
  | inr (r, made) ↦ iso r.at (rw (or_default, made) at e)
]

module _ (py : Python) (search : String → Bool) (k : Classifier) (c : Config) where
  pub published-publish_all :
      (values : List (String × String)) (m : Mqtt)
      → (publish_all py search k c values m).published ≡ m.published ++ map (state_message c) values
  unfolding publish_all publish_state publish_raw
  published-publish_all [] m = sym (append-nil m.published)
  published-publish_all ((suffix, payload) ∷ rest) m =
      published-publish_all rest (publish_state c suffix payload m)
      ∙ append_assoc m.published (state_message c (suffix, payload) ∷ [])
          (map (state_message c) rest)

  abbrev pub IsSaid : String × String → Type 0
  IsSaid (_, payload) = payload ≢ ""

  status_values-nonempty :
      (env : Cycle) (o : Observation) (d : Watchdog)
      → ((t : ℕ) → py.isoformat t ≢ "")
      → env.check_iso ≢ ""
      → All IsSaid (status_values py search k c env o d)
  unfolding status_values
  status_values-nonempty env o d iso at = (
    value-nonempty d.world.machine.state,
    (
      if-nonempty (is d.world.machine.state healthy) "true" "false" (λ e. cc e) (λ e. cc e),
      (
        status_code-nonempty o.http.status_code,
        (
          tristate-nonempty (session py search k c o.http.category),
          (
            tristate-nonempty o.database_healthy,
            (
              tristate-nonempty o.logger_healthy,
              (
                at,
                (
                  last_failure-nonempty d.last_failure,
                  (
                    last_restart-nonempty py.isoformat d.world.restarts iso,
                    (str-nonempty _, (status_value-nonempty d.world.status, tt)),
                  ),
                ),
              ),
            ),
          ),
        ),
      ),
    ),
  )

  -- If no printed time is empty, the status of a cycle is published as eleven retained messages on
  -- the topics of the watchdog, none with an empty payload, which would delete its topic, and
  -- nothing else is published with it.
  pub publish_status-keeps :
      (env : Cycle) (o : Observation) (d : Watchdog)
      → ((t : ℕ) → py.isoformat t ≢ "")
      → env.check_iso ≢ ""
      → (said : List (String × String)) × ((publish_status py search k c env o d).mqtt.published
          ≡ d.mqtt.published ++ map (state_message c) said)
        × All IsSaid said
        × (length said ≡ 11)
  unfolding publish_status status_values
  publish_status-keeps env o d iso at =
      let said = status_values py search k c env o d in
      (said, published-publish_all said d.mqtt, status_values-nonempty env o d iso at, refl)
