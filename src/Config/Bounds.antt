-- ===== src/Config/Bounds.antt =====
-- What holds of every configuration that `Config.from_env` returns.
use mathlib.Core.Path.{subst}
use teslamate_watchdog.Shared.{ℕ, ◌≤◌, String, ◌≡◌, ap, ◌∙◌, arith, str_eq, Option-cases, inl, inr}
use teslamate_watchdog.Shared.Int.{ℤ, pos, negsuc, int}
use teslamate_watchdog.Shared.Text.{str}
use teslamate_watchdog.Python.{Python}
use teslamate_watchdog.Config.{Config, derive}
use teslamate_watchdog.Config.Result.{Result, ok, refuse_if-passed, >>=-eq-ok}
use teslamate_watchdog.Config.Env.{Environment, env_text, at_least, env_int}
use teslamate_watchdog.Config.Validation.{FileSystem, validate, IsValid, validate-IsValid}
use teslamate_watchdog.Config.FromEnv.{
  Targets, Broker, Timing, Counters, health_topic, read_staleness, read_targets, read_broker,
  read_timing, read_counters, read_policy, read_windows, assemble, read_config, from_env,
}

-- The minima of the numbers. The others may be 0.
pub record IsInRange (c : Config) : Type 0 where
  pub docker_timeout : 1 ≤ c.docker_timeout_seconds
  pub database_port : 1 ≤ c.database_port
  pub tesla_auth_port : 1 ≤ c.tesla_auth_port
  pub mqtt_port : 1 ≤ c.mqtt_port
  pub check_interval : 5 ≤ c.check_interval_seconds
  pub http_timeout : 1 ≤ c.http_timeout_seconds
  pub mqtt_stale : 1 ≤ c.mqtt_stale_seconds
  pub mqtt_parked_stale : 1 ≤ c.mqtt_parked_stale_seconds
  pub failure_confirmation : 1 ≤ c.failure_confirmation_count
  pub recovery_confirmation : 1 ≤ c.recovery_confirmation_count
  pub logger_confirmation : 1 ≤ c.logger_unhealthy_confirmation_count

abbrev Least : ℕ → Result ℕ → Type 0
Least minimum (ok n) = minimum ≤ n
Least minimum _ = Unit {0}

at_least-Least :
    (name : String) (minimum : ℕ) (value : ℤ) → Least minimum (at_least name minimum value)
unfolding at_least
at_least-Least name minimum (pos n) = ground arith
at_least-Least name minimum (negsuc n) = tt

module _ (py : Python) (env : Environment) where
  env_int-Least :
      (name : String) (default minimum : ℕ) → Least minimum (env_int py env name default minimum)
  unfolding env_int
  env_int-Least name default minimum =
      elim (Option-cases (int py.digit_value (env_text env name (str default)))) [
        | inl e ↦ ground (arith, e)
        | inr (value, e) ↦ ground (arith, e, at_least-Least name minimum value)
      ]

  read_targets_bounds :
      (t : Targets)
      → read_targets py env ≡ ok t
      → (1 ≤ t.docker_timeout_seconds) × (1 ≤ t.database_port) × (1 ≤ t.tesla_auth_port)
  unfolding read_targets
  read_targets_bounds t h = ground (
    arith,
    env_int-Least "DOCKER_TIMEOUT_SECONDS" 10 1,
    env_int-Least "DATABASE_PORT" 5432 1,
    env_int-Least "TESLA_AUTH_PORT" 443 1,
  )

  read_broker_bounds : (t : Broker) → read_broker py env ≡ ok t → 1 ≤ t.mqtt_port
  unfolding read_broker
  read_broker_bounds t h = ground (arith, env_int-Least "MQTT_PORT" 1883 1)

  read_timing_bounds :
      (t : Timing)
      → read_timing py env ≡ ok t
      → (5 ≤ t.check_interval_seconds)
        × (1 ≤ t.http_timeout_seconds)
        × (1 ≤ t.mqtt_stale_seconds)
        × (1 ≤ t.mqtt_parked_stale_seconds)
  unfolding read_timing
  read_timing_bounds t h = ground (
    arith,
    env_int-Least "CHECK_INTERVAL_SECONDS" 60 5,
    env_int-Least "HTTP_TIMEOUT_SECONDS" 10 1,
    env_int-Least "MQTT_STALE_SECONDS" 600 1,
    env_int-Least "MQTT_PARKED_STALE_SECONDS" 5400 1,
  )

  read_counters_bounds :
      (t : Counters)
      → read_counters py env ≡ ok t
      → (1 ≤ t.failure_confirmation_count)
        × (1 ≤ t.recovery_confirmation_count)
        × (1 ≤ t.logger_unhealthy_confirmation_count)
  unfolding read_counters
  read_counters_bounds t h = ground (
    arith,
    env_int-Least "FAILURE_CONFIRMATION_COUNT" 3 1,
    env_int-Least "RECOVERY_CONFIRMATION_COUNT" 2 1,
    env_int-Least "LOGGER_UNHEALTHY_CONFIRMATION_COUNT" 15 1,
  )

  read_config-IsInRange : (c : Config) → read_config py env ≡ ok c → IsInRange c
  unfolding read_config assemble
  read_config-IsInRange c h =
      let (host, h1) = (refuse_if-passed (str_eq (env_text env "MQTT_HOST" "") "") _ _ _).0 h in
      let (staleness, e0, h2) =
        >>=-eq-ok (read_staleness py env (derive (health_topic env))) _ _ h1 in
      let (targets, e1, h3) = >>=-eq-ok (read_targets py env) _ _ h2 in
      let (broker, e2, h4) = >>=-eq-ok (read_broker py env) _ _ h3 in
      let (timing, e3, h5) = >>=-eq-ok (read_timing py env) _ _ h4 in
      let (counters, e4, h6) = >>=-eq-ok (read_counters py env) _ _ h5 in
      let (policy, e5, h7) = >>=-eq-ok (read_policy py env) _ _ h6 in
      let (windows, e6, h8) = >>=-eq-ok (read_windows py env) _ _ h7 in
      let (b1, b2, b3) = read_targets_bounds targets e1 in
      let (b4, b5, b6, b7) = read_timing_bounds timing e3 in
      let (b8, b9, b10) = read_counters_bounds counters e4 in
      let made : assemble py env (env_text env "MQTT_HOST" "") (derive (health_topic env)) staleness
            targets broker timing counters policy windows
          ≡ c =
        cc h8 in
      subst (λ x. IsInRange x) made
        (record {
          docker_timeout = b1;
          database_port = b2;
          tesla_auth_port = b3;
          mqtt_port = read_broker_bounds broker e2;
          check_interval = b4;
          http_timeout = b5;
          mqtt_stale = b6;
          mqtt_parked_stale = b7;
          failure_confirmation = b8;
          recovery_confirmation = b9;
          logger_confirmation = b10;
        })

  -- A configuration that from_env returns is valid, and every number with a positive minimum is at
  -- least its minimum.
  pub from_env-IsValid :
      (files : FileSystem) (c : Config)
      → from_env py env files ≡ ok c
      → IsValid files c × IsInRange c
  unfolding from_env
  from_env-IsValid files c h =
      let (read, e, h1) = >>=-eq-ok (read_config py env) _ _ h in
      let (checked, e', h2) = >>=-eq-ok (validate files read) _ _ h1 in
      let same : read ≡ c = cc h2 in
      (
        subst (λ x. IsValid files x) same ((validate-IsValid files read).0 e'),
        read_config-IsInRange c (e ∙ ap ok same),
      )
