-- ===== src/HaDiscovery/Available.antt =====
-- The last retained message on the availability topic, which no other message of a connection
-- replaces.
use text.Mathlib.TextLemmas.{append-nil as text_append-nil}
use teslamate_watchdog.Shared.{
  ℕ, String, ◌≡◌, refl, sym, ◌∙◌, ap, Bool, true, false, none, some, List, [], ◌∷◌, ◌++◌, map,
  arith, eq_iff, str_eq, last?, or_default, Bool-cases, inl, inr, if◌then◌else◌,
}
use teslamate_watchdog.Shared.Text.{fstring}
use teslamate_watchdog.Shared.Text.Decimal.{codes-append}
use teslamate_watchdog.Shared.Strings.{codes}
use teslamate_watchdog.Shared.Json.{Json}
use teslamate_watchdog.Config.{Config, topic, availability_topic}
use teslamate_watchdog.MqttClient.{Message, Mqtt, on_connect, publish_raw, payload_online}
use teslamate_watchdog.MqttClient.Retained.{retained, retained-append}
use teslamate_watchdog.HaDiscovery.{Entity, build_entities, discovery_topic, publish}
use teslamate_watchdog.HaDiscovery.Messages.{discovery, announcements, online, on_connect-messages}

last?-append {ℓ} :
    {A : Type ℓ} (xs ys : List A) (y : A) → last? ys ≡ some y → last? (xs ++ ys) ≡ some y
last?-append [] ys y h = h
last?-append (x ∷ []) [] y h = cc h
last?-append (x ∷ []) (z ∷ zs) y h = h
last?-append (x ∷ x' ∷ xs) ys y h = last?-append (x' ∷ xs) ys y h

-- an f-string ends as its last part does
last-fstring :
    (parts : List String) (s : String) (x : ℕ)
    → last? (codes s) ≡ some x
    → last? (codes (fstring (parts ++ s ∷ []))) ≡ some x
last-fstring [] s x h = ap (λ t. last? (codes t)) (text_append-nil s) ∙ h
last-fstring (p ∷ parts) s x h =
    ap last? (codes-append p (fstring (parts ++ s ∷ [])))
    ∙ last?-append (codes p) (codes (fstring (parts ++ s ∷ []))) x (last-fstring parts s x h)

module _ (c : Config) where
  discovery_topic-ne : (e : Entity) → str_eq (discovery_topic c e) (availability_topic c) ≡ false
  unfolding availability_topic topic
  discovery_topic-ne e =
      let ends_config : last? (codes (discovery_topic c e)) ≡ some b'g' =
        last-fstring
          (c.ha_discovery_prefix ∷ "/" ∷ e.component ∷ "/" ∷ "teslamate_watchdog" ∷ "/"
            ∷ e.object_id ∷ [])
          "/config" b'g' refl in
      let ends_availability : last? (codes (availability_topic c)) ≡ some b'y' =
        last-fstring (c.mqtt_base_topic ∷ "/" ∷ []) "availability" b'y' refl in
      elim (Bool-cases (str_eq (discovery_topic c e) (availability_topic c))) [
        | inr e' ↦ e'
        | inl e' ↦
            let same : discovery_topic c e ≡ availability_topic c =
              (eq_iff (discovery_topic c e) (availability_topic c)).0 e' in
            let apart : ◌≡◌ {A = ℕ} b'g' b'y' =
              ap (λ o. or_default o 0)
                (sym ends_config ∙ ap (λ t. last? (codes t)) same ∙ ends_availability) in
            absurd (omega (arith, apart))
      ]

  retained-discovery :
      (dumps : Json → String) (es : List Entity)
      → retained (availability_topic c) (map (discovery c dumps) es) ≡ none
  retained-discovery dumps [] = refl
  retained-discovery dumps (e ∷ es) = rw (retained-discovery dumps es, discovery_topic-ne e) refl

  -- While the client is connected, the last retained message on the availability is "online".
  unfoldable pub IsAnnounced : Mqtt → Type 0
  IsAnnounced m =
      m.connected ≡ true → retained (availability_topic c) m.published ≡ some payload_online

  retained-announcements :
      (dumps : Json → String) (enabled : Bool)
      → retained
          (availability_topic c)
          (if enabled then map (discovery c dumps) (build_entities c) else [])
        ≡ none
  retained-announcements dumps true = retained-discovery dumps (build_entities c)
  retained-announcements dumps false = refl

  pub retained-last :
      (ms : List Message) (m : Message) (rest : List Message)
      → m.topic ≡ availability_topic c
      → m.retain ≡ true
      → retained (availability_topic c) rest ≡ none
      → retained (availability_topic c) (ms ++ m ∷ rest) ≡ some m.payload
  retained-last ms m rest t r h =
      let same : str_eq m.topic (availability_topic c) ≡ true =
        (eq_iff m.topic (availability_topic c)).1 t in
      retained-append (availability_topic c) ms (m ∷ rest) ∙ rw (h, r, same) refl

  pub on_connect-IsAnnounced :
      (dumps : Json → String) (refused : Bool) (now : ℕ) (m : Mqtt)
      → IsAnnounced m
      → IsAnnounced (on_connect c refused now (publish c dumps publish_raw) m)
  unfolding on_connect IsAnnounced
  on_connect-IsAnnounced dumps true now m h on = h on
  on_connect-IsAnnounced dumps false now m h on =
      ap (λ n. retained (availability_topic c) n.published) (on_connect-messages c dumps now m)
      ∙ retained-last m.published (online c dumps) (announcements c dumps) refl refl
          (retained-announcements dumps c.ha_discovery_enabled)
