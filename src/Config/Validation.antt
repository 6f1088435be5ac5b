-- ===== src/Config/Validation.antt =====
-- `Config.validate`, and the properties that its result stands for.
use teslamate_watchdog.Shared.{
  ℕ, ◌≤◌, String, ◌≡◌, refl, ◌≢◌, ◌↔◌, ◌⊎◌, Bool, true, false, ◌&&◌, ◌||◌, not, Option, none, some,
  [], ◌∷◌, arith, ltb, str_eq, eq_iff, is_some,
}
use teslamate_watchdog.Shared.Text.{fstring, repr}
use teslamate_watchdog.Shared.Strings.{starts_with}
use teslamate_watchdog.Config.{Config}
use teslamate_watchdog.Config.Result.{
  Result, ok, config_error, refuse_if, refuse_if-passed, refuse_if-ok, ◌>>◌,
}

-- What is outside of the program: `re.compile`, with the error for a pattern that is not valid, and
-- `Path.is_file`.
pub record FileSystem : Type 0 where
  pub compile_error : String → Option String
  pub is_file : String → Bool

abbrev check_pattern : Option String → Result (Unit {0})
check_pattern none = ok tt
check_pattern (some error) =
    config_error (fstring ("TESLAMATE_SIGNIN_PATTERN is not a valid regex: " ∷ error ∷ []))

check_pattern-passed :
    (error : Option String) (k : Result (Unit {0}))
    → ((check_pattern error >> k) ≡ ok tt) ↔ ((error ≡ none) × (k ≡ ok tt))
check_pattern-passed none k = (λ h. (refl, h), λ h. h.1)
check_pattern-passed (some e) k = (λ h. cc, λ h. cc h.0)

either : {a b : Bool} → not (a || b) ≡ false → (a ≡ true) ⊎ (b ≡ true)
either h = ground arith

differ : (s t : String) → str_eq s t ≡ false → s ≢ t
differ s t h = ground (arith, eq_iff s t)

unset_or : (s : String) {a : Bool} → (not (str_eq s "") && not a) ≡ false → (s ≡ "") ⊎ (a ≡ true)
unset_or s h = ground (arith, eq_iff s "")

unset_or_either :
    (s : String) {a b : Bool}
    → (not (str_eq s "") && not (a || b)) ≡ false
    → (s ≡ "") ⊎ (a ≡ true) ⊎ (b ≡ true)
unset_or_either s h = ground (arith, eq_iff s "")

gate :
    {on : Bool} {filter : Option String}
    → (on && not (is_some filter)) ≡ false
    → on ≡ true
    → filter ≢ none
gate h e = ground arith

ltb-false : {a b : ℕ} → ltb a b ≡ false → b ≤ a
ltb-false h = ground arith

module _ (files : FileSystem) (c : Config) where
  -- the tests of `validate`
  abbrev bad_url : Bool
  bad_url = not (starts_with "http://" c.teslamate_url || starts_with "https://" c.teslamate_url)

  abbrev ungated : Bool
  ungated = c.staleness_detection_enabled && not (is_some c.topics.state_filter)

  abbrev bad_docker_host : Bool
  bad_docker_host =
      not (str_eq c.docker_host "")
      && not (starts_with "tcp://" c.docker_host || starts_with "http://" c.docker_host)

  abbrev no_certificate : Bool
  no_certificate = not (str_eq c.mqtt_tls_ca_cert "") && not (files.is_file c.mqtt_tls_ca_cert)

  abbrev window_too_long : Bool
  window_too_long = ltb c.diagnostic_log_lookback_seconds c.log_analysis_lookback_seconds

  -- `Config.validate`
  unfoldable pub validate : Result (Unit {0})
  validate = do
    check_pattern (files.compile_error c.teslamate_signin_pattern)
    refuse_if bad_url (
        fstring
          ("TESLAMATE_URL must start with http:// or https://, got " ∷ repr c.teslamate_url ∷ []))
    refuse_if (str_eq c.mqtt_base_topic "") "MQTT_BASE_TOPIC must not be empty"
    refuse_if ungated
        "STALENESS_DETECTION_ENABLED requires a TESLAMATE_HEALTH_TOPIC of the form <root>/cars/<id>/healthy so the car's state topic can be derived for gating"
    refuse_if bad_docker_host (
        fstring (
          "DOCKER_HOST must be tcp:// or http:// (the socket proxy), got "
          ∷ repr c.docker_host
          ∷ ". Mounting /var/run/docker.sock directly is not supported — see the security section of the README."
          ∷ []))
    refuse_if (str_eq c.teslamate_container c.database_container)
        "TESLAMATE_CONTAINER and DATABASE_CONTAINER must differ — the watchdog must never be able to resolve a restart onto the database"
    refuse_if no_certificate (
        fstring (
          "MQTT_TLS_CA_CERT points at "
          ∷ repr c.mqtt_tls_ca_cert
          ∷ ", which is not a readable file inside the container — check the volume mount"
          ∷ []))
    refuse_if window_too_long
        "LOG_ANALYSIS_LOOKBACK must not exceed DIAGNOSTIC_LOG_LOOKBACK — the state window is meant to be the shorter of the two"

  -- What a validated configuration promises.
  pub record IsValid : Type 0 where
    pub pattern : files.compile_error c.teslamate_signin_pattern ≡ none
    pub url :
        (starts_with "http://" c.teslamate_url ≡ true)
        ⊎ (starts_with "https://" c.teslamate_url ≡ true)
    pub base_topic : c.mqtt_base_topic ≢ ""
    pub gated : c.staleness_detection_enabled ≡ true → c.topics.state_filter ≢ none
    pub proxy :
        (c.docker_host ≡ "")
        ⊎ (starts_with "tcp://" c.docker_host ≡ true)
        ⊎ (starts_with "http://" c.docker_host ≡ true)
    pub apart : c.teslamate_container ≢ c.database_container
    pub certificate : (c.mqtt_tls_ca_cert ≡ "") ⊎ (files.is_file c.mqtt_tls_ca_cert ≡ true)
    pub windows : c.log_analysis_lookback_seconds ≤ c.diagnostic_log_lookback_seconds

  -- every test is passed
  Passed : Type 0
  Passed =
      (files.compile_error c.teslamate_signin_pattern ≡ none)
      × (bad_url ≡ false)
      × (str_eq c.mqtt_base_topic "" ≡ false)
      × (ungated ≡ false)
      × (bad_docker_host ≡ false)
      × (str_eq c.teslamate_container c.database_container ≡ false)
      × (no_certificate ≡ false)
      × (window_too_long ≡ false)

  validate-Passed : (validate ≡ ok tt) ↔ Passed
  unfolding validate Passed
  validate-Passed = (
    λ h.
        let (pattern, h1) = (check_pattern-passed _ _).0 h in
        let (url, h2) = (refuse_if-passed _ _ _ _).0 h1 in
        let (topic, h3) = (refuse_if-passed _ _ _ _).0 h2 in
        let (gated, h4) = (refuse_if-passed _ _ _ _).0 h3 in
        let (proxy, h5) = (refuse_if-passed _ _ _ _).0 h4 in
        let (apart, h6) = (refuse_if-passed _ _ _ _).0 h5 in
        let (certificate, h7) = (refuse_if-passed _ _ _ _).0 h6 in
        (pattern, url, topic, gated, proxy, apart, certificate, (refuse_if-ok _ _).0 h7),
    λ (pattern, url, topic, gated, proxy, apart, certificate, window).
        (check_pattern-passed _ _).1 (
          pattern,
          (refuse_if-passed _ _ _ _).1 (
            url,
            (refuse_if-passed _ _ _ _).1 (
              topic,
              (refuse_if-passed _ _ _ _).1 (
                gated,
                (refuse_if-passed _ _ _ _).1 (
                  proxy,
                  (refuse_if-passed _ _ _ _).1 (
                    apart,
                    (refuse_if-passed _ _ _ _).1 (certificate, (refuse_if-ok _ _).1 window),
                  ),
                ),
              ),
            ),
          ),
        ),
  )

  Passed-IsValid : Passed ↔ IsValid
  unfolding Passed
  Passed-IsValid = (
    λ h. record {
      pattern = h.0;
      url = either h.1;
      base_topic = differ c.mqtt_base_topic "" h.2;
      gated = gate h.3;
      proxy = unset_or_either c.docker_host h.4;
      apart = differ c.teslamate_container c.database_container h.5;
      certificate = unset_or c.mqtt_tls_ca_cert h.6;
      windows = ltb-false h.7;
    },
    λ h. (
      h.pattern,
      ground (arith, h.url),
      ground (arith, h.base_topic, eq_iff c.mqtt_base_topic ""),
      ground (arith, h.gated),
      ground (arith, h.proxy, eq_iff c.docker_host ""),
      ground (arith, h.apart, eq_iff c.teslamate_container c.database_container),
      ground (arith, h.certificate, eq_iff c.mqtt_tls_ca_cert ""),
      ground (arith, h.windows),
    ),
  )

  -- The validation accepts a configuration exactly if it is valid: the pattern compiles, the URL
  -- and the proxy have an allowed scheme, the base topic is set, staleness is gated, the
  -- containers differ, the certificate is a file, and the windows nest.
  pub validate-IsValid : (validate ≡ ok tt) ↔ IsValid
  validate-IsValid =
      (λ h. Passed-IsValid.0 (validate-Passed.0 h), λ h. validate-Passed.1 (Passed-IsValid.1 h))
