-- ===== src/MqttClient/Retained.antt =====
-- The last retained message of a topic, among those that src/mqtt_client.py asks paho to publish:
-- what a broker keeps, if they arrive in order.
use text.Mathlib.TextLemmas.{append_cancel_left, append_cancel_right}
use teslamate_watchdog.Shared.{
  String, ◌≡◌, refl, sym, ap, true, ◌&&◌, Option, none, some, List, [], ◌∷◌, ◌++◌, map, str_eq,
  eq_iff, if◌then◌else◌, inl, inr, Bool-cases, arith,
}
use teslamate_watchdog.Config.{Config, topic}
use teslamate_watchdog.MqttClient.{Message}

-- the first of two answers that there is
abbrev pub or_else : Option String → Option String → Option String
or_else none other = other
or_else (some s) _ = some s

-- The payload of the last retained message on a topic. None: no such
-- message. An empty payload would delete the topic.
abbrev pub retained : String → List Message → Option String
retained t [] = none
retained t (m ∷ ms) =
    let later = retained t ms in
    or_else later (if m.retain && str_eq m.topic t then some m.payload else none)

or_else_assoc : (a b c : Option String) → or_else (or_else a b) c ≡ or_else a (or_else b c)
or_else_assoc none b c = refl
or_else_assoc (some a) b c = refl

or_else-none : (a : Option String) → or_else a none ≡ a
or_else-none none = refl
or_else-none (some a) = refl

pub retained-append :
    (t : String) (ms ns : List Message)
    → retained t (ms ++ ns) ≡ or_else (retained t ns) (retained t ms)
retained-append t [] ns = sym (or_else-none (retained t ns))
retained-append t (m ∷ ms) ns =
    rw (retained-append t ms ns) (or_else_assoc (retained t ns) (retained t ms) _)

-- the last value of a key
abbrev pub last_value : String → List (String × String) → Option String
last_value key [] = none
last_value key ((k, v) ∷ rest) =
    let later = last_value key rest in or_else later (if str_eq k key then some v else none)

topic-injective : (c : Config) (k s : String) → topic c k ≡ topic c s → k ≡ s
unfolding topic
topic-injective c k s e =
    append_cancel_right k s ""
      (append_cancel_left "/" _ _ (append_cancel_left c.mqtt_base_topic _ _ e))

pub str_eq-topic : (c : Config) (k s : String) → str_eq (topic c k) (topic c s) ≡ str_eq k s
str_eq-topic c k s = elim (Bool-cases (str_eq k s)) [
  | inl e ↦
      ground (arith, eq_iff k s, eq_iff (topic c k) (topic c s), ap (topic c) ((eq_iff k s).0 e))
  | inr e ↦ ground (arith, eq_iff k s, eq_iff (topic c k) (topic c s), topic-injective c k s)
]

module _ (c : Config) where
  -- the message of a state topic
  abbrev pub state_message : String × String → Message
  state_message (suffix, payload) = record {
    topic = topic c suffix;
    payload = payload;
    retain = true;
    qos = 1;
  }

  pub retained-state_message :
      (key : String) (values : List (String × String))
      → retained (topic c key) (map state_message values) ≡ last_value key values
  retained-state_message key [] = refl
  retained-state_message key ((k, v) ∷ rest) =
      rw (retained-state_message key rest, str_eq-topic c k key) refl
