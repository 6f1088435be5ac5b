-- ===== src/MqttClient/Connection.antt =====
-- How the constructor of src/mqtt_client.py sets up paho's client. What `ssl` makes of a new context
-- is a parameter; a certificate file that it cannot read is an error.
use mathlib.Core.Path.{subst}
use teslamate_watchdog.Shared.{
  String, ◌≡◌, refl, ◌↔◌, Bool, true, false, Option, none, some, [], ◌∷◌, str_eq, if◌then◌else◌,
  inl, inr, Bool-cases, ◌≢◌, not, ◌⊎◌, eq_iff,
}
use teslamate_watchdog.Shared.Text.{fstring, repr}
use teslamate_watchdog.Config.{Config, availability_topic}
use teslamate_watchdog.Config.Result.{Result, ok, config_error, ◌>>=◌}
use teslamate_watchdog.MqttClient.{Message, payload_offline}

-- which certificate authorities a context trusts
pub data Trust : Type 0 where
  nobody : Trust
  system : Trust
  file : String → Trust

pub record TlsContext : Type 0 where
  pub check_hostname : Bool
  pub verify_certificate : Bool
  pub trust : Trust

-- The options of paho's client that the constructor sets.
pub record Options : Type 0 where
  pub credentials : Option (String × Option String)
  pub tls : Option TlsContext
  pub will : Message

-- `fresh` is the new context, `ssl.SSLContext(ssl.PROTOCOL_TLS_CLIENT)`, and `load_error` the error of
-- `load_verify_locations` for a file, if there is one.
module _ (fresh : TlsContext) (load_error : String → Option String) (c : Config) where
  abbrev pub load_file : Option String → Result TlsContext
  load_file none = ok (record fresh { trust = Trust.file c.mqtt_tls_ca_cert })
  load_file (some error) = config_error (
      fstring (
        "MQTT_TLS_CA_CERT "
        ∷ repr c.mqtt_tls_ca_cert
        ∷ " is not a readable PEM certificate ("
        ∷ error
        ∷ "). It should be the CA that signed your broker's certificate, in PEM format."
        ∷ []))

  -- `_build_tls_context`
  unfoldable pub build_tls_context : Result TlsContext
  build_tls_context =
      if c.mqtt_tls_insecure
      then ok (record fresh { check_hostname = false; verify_certificate = false })
      else if not (str_eq c.mqtt_tls_ca_cert "")
      then load_file (load_error c.mqtt_tls_ca_cert)
      else ok (record fresh { trust = Trust.system })

  -- the credentials and the context, in the order of the constructor
  abbrev pub credentials : Option (String × Option String)
  credentials =
      if str_eq c.mqtt_username ""
      then none
      else some
          (c.mqtt_username, (if str_eq c.mqtt_password "" then none else some c.mqtt_password))

  unfoldable pub tls_option : Result (Option TlsContext)
  tls_option = if c.mqtt_tls then (do context ← build_tls_context; ok (some context)) else ok none

  -- `WatchdogMqtt.__init__`, as far as paho's client is concerned
  unfoldable pub connection_options : Result Options
  connection_options = do
    tls ← tls_option
    ok (record {
      credentials = credentials;
      tls = tls;
      will = record {
        topic = availability_topic c;
        payload = payload_offline;
        retain = true;
        qos = 1;
      };
    })

  -- A context that accepts any certificate, or a certificate for any host.
  abbrev pub IsLax : TlsContext → Type 0
  IsLax context = (context.check_hostname ≡ false) ⊎ (context.verify_certificate ≡ false)

  -- Host names and certificates are checked, against the given authority, or those of the system if
  -- none is given.
  IsStrict : TlsContext → Type 0
  IsStrict context =
      (context.check_hostname ≡ true)
      × (context.verify_certificate ≡ true)
      × (c.mqtt_tls_ca_cert ≢ "" → context.trust ≡ Trust.file c.mqtt_tls_ca_cert)
      × (c.mqtt_tls_ca_cert ≡ "" → context.trust ≡ Trust.system)

  strict : (made context : TlsContext) → IsStrict made → ok made ≡ ok context → IsStrict context
  unfolding IsStrict
  strict made context s e = subst IsStrict (cc e) s

  lax :
      (context : TlsContext)
      → ok (record fresh { check_hostname = false; verify_certificate = false }) ≡ ok context
      → IsLax context
  lax context e =
      let same : record fresh { check_hostname = false; verify_certificate = false } ≡ context =
        cc e in
      subst IsLax same (inl refl)

  not-IsLax : (context : TlsContext) → IsStrict context → ¬ IsLax context
  unfolding IsStrict
  not-IsLax context s (inl e) = cc (s.0, e)
  not-IsLax context s (inr e) = cc (s.1, e)

  -- what `ssl` documents of a new context for a client
  module _ (checks : fresh.check_hostname ≡ true) (verifies : fresh.verify_certificate ≡ true) where
    load_file-IsStrict :
        (error : Option String) (context : TlsContext)
        → c.mqtt_tls_ca_cert ≢ ""
        → load_file error ≡ ok context
        → IsStrict context
    unfolding IsStrict
    load_file-IsStrict none context given e =
        strict _ context (checks, verifies, λ _. refl, λ absent. absurd (given absent)) e
    load_file-IsStrict (some error) context given e = absurd (cc e)

    secure-IsStrict :
        (context : TlsContext)
        → c.mqtt_tls_insecure ≡ false
        → build_tls_context ≡ ok context
        → IsStrict context
    unfolding build_tls_context IsStrict
    secure-IsStrict context secure h =
        let named = eq_iff c.mqtt_tls_ca_cert "" in
        elim (Bool-cases (str_eq c.mqtt_tls_ca_cert "")) [
          | inl e ↦
              strict _ context (checks, verifies, λ given. absurd (given (named.0 e)), λ _. refl)
                (rw (secure, e) at h)
          | inr e ↦
              load_file-IsStrict (load_error c.mqtt_tls_ca_cert) context
                (λ absent. cc (named.1 absent, e)) (rw (secure, e) at h)
        ]

    -- If a new TLS context checks host names and certificates, the context that is built from it
    -- does not check one of them exactly if MQTT_TLS_INSECURE is set; without it the context
    -- trusts the given authority if there is one, and those of the system if there is none.
    pub build_tls_context-strict :
        (context : TlsContext)
        → build_tls_context ≡ ok context
        → (IsLax context ↔ (c.mqtt_tls_insecure ≡ true))
          × (c.mqtt_tls_insecure ≡ false
              → (c.mqtt_tls_ca_cert ≢ "" → context.trust ≡ Trust.file c.mqtt_tls_ca_cert)
                × (c.mqtt_tls_ca_cert ≡ "" → context.trust ≡ Trust.system))
    unfolding build_tls_context IsStrict
    build_tls_context-strict context h = elim (Bool-cases c.mqtt_tls_insecure) [
      | inl e ↦ ((λ _. e, λ _. lax context (rw e at h)), λ e'. cc (e, e'))
      | inr e ↦
          let s = secure-IsStrict context e h in
          ((λ l. absurd (not-IsLax context s l), λ e'. cc (e, e')), λ _. (s.2, s.3))
    ]
