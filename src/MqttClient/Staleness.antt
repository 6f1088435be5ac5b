-- ===== src/MqttClient/Staleness.antt =====
-- When the vehicle logger counts as stale, and which car speaks for it.
use teslamate_watchdog.Shared.{
  ℕ, ◌+◌, ◌≤◌, ◌<◌, String, ◌≡◌, refl, sym, ap, ◌∙◌, ◌↔◌, ◌⊎◌, inl, inr, true, false, Option, none,
  some, List, [], ◌∷◌, arith, eq_iff, str_eq, is_some, is_false, or_default, Option-cases,
  Bool-cases, List-cases, if◌then◌else◌,
}
use teslamate_watchdog.Shared.Strings.{strip, ends_with}
use teslamate_watchdog.Config.{Config, car_id_from_topic}
use teslamate_watchdog.RestartManager.{seconds}
use teslamate_watchdog.MqttClient.{
  CarObservation, Mqtt, new_car, get_car, update_car, on_message, on_connect, on_disconnect,
  note_message, stale_limit, staleness, logger_health, select_car, first_unhealthy, fallback_car,
  car_health,
}

-- the car was last driving or charging, as its state says
abbrev pub IsActive : (String → String) → CarObservation → Type 0
IsActive lower car =
    let state = lower (strip (or_default car.state_payload "")) in
    (state ≡ "driving") ⊎ (state ≡ "charging")

-- The gap that is tolerated: the shorter limit for a car that is driving or charging, and the longer
-- one for any other.
abbrev pub Allows : (String → String) → Config → CarObservation → ℕ → Type 0
Allows lower c car limit =
    (IsActive lower car × (limit ≡ c.mqtt_stale_seconds))
    ⊎ ((¬ IsActive lower car) × (limit ≡ c.mqtt_parked_stale_seconds))

-- A car is silent for too long: it was heard before, the client is connected, and since both the
-- heartbeat and the connection more time has passed than its state allows.
pub record IsSilent (lower : String → String) (c : Config) (m : Mqtt) (car : CarObservation)
    (now : ℕ) : Type 0 where
  pub enabled : c.staleness_detection_enabled ≡ true
  pub heard : ℕ
  pub was_heard : car.healthy_monotonic ≡ some heard
  pub since : ℕ
  pub is_connected : m.connected_since ≡ some since
  pub limit : ℕ
  pub allowed : Allows lower c car limit
  pub over_heartbeat : heard + seconds limit < now
  pub over_connection : since + seconds limit < now

module _ (lower : String → String) (c : Config) where
  -- the limit of the code is the one that is allowed, and the only one
  stale_limit-Allows :
      (car : CarObservation)
      → Allows lower c car (stale_limit lower c car)
        × ((limit : ℕ) → Allows lower c car limit → limit ≡ stale_limit lower c car)
  unfolding stale_limit
  stale_limit-Allows car =
      let state = lower (strip (or_default car.state_payload "")) in
      let driving = eq_iff state "driving" in
      let charging = eq_iff state "charging" in
      let active : IsActive lower car
          → stale_limit lower c car ≡ c.mqtt_stale_seconds
          → Allows lower c car (stale_limit lower c car)
            × ((limit : ℕ) → Allows lower c car limit → limit ≡ stale_limit lower c car) =
        λ is same. (
          inl (is, same),
          λ limit h. elim h [ inl x ↦ x.1 ∙ sym same | inr x ↦ absurd (x.0 is) ],
        ) in
      elim (Bool-cases (str_eq state "driving")) [
        | inl e ↦ active (inl (driving.0 e)) (rw (stale_limit, e) refl)
        | inr e ↦ elim (Bool-cases (str_eq state "charging")) [
          | inl e' ↦ active (inr (charging.0 e')) (rw (stale_limit, e, e') refl)
          | inr e' ↦
              let same : stale_limit lower c car ≡ c.mqtt_parked_stale_seconds =
                rw (stale_limit, e, e') refl in
              let parked : ¬ IsActive lower car =
                λ is. elim is [ inl x ↦ cc (driving.1 x, e) | inr x ↦ cc (charging.1 x, e') ] in
              (
                inr (parked, same),
                λ limit h. elim h [ inl x ↦ absurd (parked x.0) | inr x ↦ x.1 ∙ sym same ],
              )
        ]
      ]

  -- A car counts as stale exactly if detection is on, the car was heard, the client is connected,
  -- and since both more time has passed than is allowed: the shorter limit for a car that is
  -- driving or charging, the longer one for any other.
  pub staleness-IsSilent :
      (m : Mqtt) (car : CarObservation) (now : ℕ)
      → (is_some (staleness lower c m car now) ≡ true) ↔ IsSilent lower c m car now
  unfolding staleness
  staleness-IsSilent m car now = elim (Option-cases car.healthy_monotonic) [
    | inl e ↦ (λ h. absurd (ground arith), λ h. cc (e, h.was_heard))
    | inr (t, e) ↦ elim (Option-cases m.connected_since) [
      | inl e' ↦ (λ h. absurd (ground arith), λ h. cc (e', h.is_connected))
      | inr (s, e') ↦ (
        λ h. record {
          enabled = ground arith;
          heard = t;
          was_heard = e;
          since = s;
          is_connected = e';
          limit = stale_limit lower c car;
          allowed = (stale_limit-Allows car).0;
          over_heartbeat = ground arith;
          over_connection = ground arith;
        },
        λ h.
            let same : h.heard ≡ t = cc (e, h.was_heard) in
            let same' : h.since ≡ s = cc (e', h.is_connected) in
            let limit : h.limit ≡ stale_limit lower c car =
              (stale_limit-Allows car).1 h.limit h.allowed in
            let heartbeat : t + seconds (stale_limit lower c car) < now =
              rw (← limit, ← same) h.over_heartbeat in
            let connection : s + seconds (stale_limit lower c car) < now =
              rw (← limit, ← same') h.over_connection in
            ground (arith, h.enabled, heartbeat, connection),
      )
    ]
  ]

  not_stale :
      (m : Mqtt) (car : CarObservation) (now : ℕ)
      → ¬ IsSilent lower c m car now
      → staleness lower c m car now ≡ none
  not_stale m car now h = elim (Option-cases (staleness lower c m car now)) [
    | inl e ↦ e
    | inr (text, e) ↦ absurd (h ((staleness-IsSilent m car now).0 (rw e)))
  ]

  get_car-nil : (id : String) → get_car id [] ≡ none
  unfolding get_car
  get_car-nil id = refl

  get_car-update_car :
      (id j : String) (f : CarObservation → CarObservation) (cars : List (String × CarObservation))
      → get_car j (update_car id f cars) ≡ (
          if str_eq id j
          then some (f (or_default (get_car id cars) (new_car id)))
          else get_car j cars)
  unfolding get_car update_car
  get_car-update_car id j f [] = ground arith
  get_car-update_car id j f ((i, car) ∷ rest) =
      ground (arith, eq_iff id j, eq_iff i id, eq_iff i j, get_car-update_car id j f rest)

  -- After a heartbeat its car is not stale until the limit of the car has passed since it came.
  pub on_message-fresh :
      (t decoded wall : String) (at now : ℕ) (m : Mqtt) (car : CarObservation)
      → ends_with "/healthy" t ≡ true
      → get_car (car_id_from_topic t) (on_message lower t decoded at wall m).cars ≡ some car
      → now ≤ at + seconds (stale_limit lower c car)
      → staleness lower c (on_message lower t decoded at wall m) car now ≡ none
  unfolding on_message note_message
  on_message-fresh t decoded wall at now m car beat found soon =
      let id = car_id_from_topic t in
      let f = note_message lower t (strip decoded) at wall in
      let made : f (or_default (get_car id m.cars) (new_car id)) ≡ car =
        ground (arith, get_car-update_car id id f m.cars, found, eq_iff id id) in
      let heard : car.healthy_monotonic ≡ some at = rw (← made) (ground arith) in
      not_stale (on_message lower t decoded at wall m) car now (λ h.
        let same : h.heard ≡ at = cc (heard, h.was_heard) in
        omega (arith, h.over_heartbeat, (stale_limit-Allows car).1 h.limit h.allowed))

  -- After a disconnect no car is stale; after a connection none is until the limit of the car has
  -- passed since then.
  pub connection-fresh :
      (m : Mqtt) (car : CarObservation) (at now : ℕ)
      → (staleness lower c (on_disconnect m) car now ≡ none)
        × (now ≤ at + seconds (stale_limit lower c car)
            → staleness lower c (on_connect c false at (λ n. n) m) car now ≡ none)
  unfolding on_disconnect on_connect
  connection-fresh m car at now = (
    not_stale (on_disconnect m) car now (λ h. cc h.is_connected),
    λ soon. not_stale (on_connect c false at (λ n. n) m) car now (λ h.
        let same : h.since ≡ at = cc h.is_connected in
        omega (arith, h.over_connection, (stale_limit-Allows car).1 h.limit h.allowed)),
  )

  -- a car that reports unhealthy is among the cars
  abbrev pub SomeUnhealthy : List (String × CarObservation) → Type 0
  SomeUnhealthy [] = ⊥
  SomeUnhealthy ((_, car) ∷ rest) = (car.healthy ≡ some false) ⊎ SomeUnhealthy rest

  first_unhealthy_lem :
      (cars : List (String × CarObservation))
      → SomeUnhealthy cars
      → (car : CarObservation) × (first_unhealthy cars ≡ some car) × (car.healthy ≡ some false)
  unfolding first_unhealthy
  first_unhealthy_lem [] h = absurd h
  first_unhealthy_lem ((i, car) ∷ rest) h = elim (Bool-cases (is_false car.healthy)) [
    | inl bad ↦ (car, ground arith, ground arith)
    | inr good ↦
        let (found, e, f) = first_unhealthy_lem rest (ground arith) in (found, ground (arith, e), f)
  ]

  healthy-logger_health :
      (m : Mqtt) (now : ℕ) (i : String) (first : CarObservation)
      (rest : List (String × CarObservation))
      → m.cars ≡ (i, first) ∷ rest
      → (logger_health lower c now m).1.healthy
        ≡ (select_car c.topics.primary_car_id first m.cars).healthy
  unfolding logger_health car_health
  healthy-logger_health m now i first rest e = ground arith

  select_car-known :
      (primary : Option String) (id : String) (first car : CarObservation)
      (cars : List (String × CarObservation))
      → primary ≡ some id
      → get_car id cars ≡ some car
      → select_car primary first cars ≡ car
  unfolding select_car
  select_car-known primary id first car cars p known = ground (arith, p, known)

  select_car-unhealthy :
      (primary : Option String) (first : CarObservation) (cars : List (String × CarObservation))
      → ((id : String) → primary ≡ some id → get_car id cars ≡ none)
      → SomeUnhealthy cars
      → (select_car primary first cars).healthy ≡ some false
  unfolding select_car fallback_car
  select_car-unhealthy none first cars unknown bad =
      let (found, e, f) = first_unhealthy_lem cars bad in ground (arith, e, f)
  select_car-unhealthy (some id) first cars unknown bad =
      let (found, e, f) = first_unhealthy_lem cars bad in ground (arith, e, f, unknown id refl)

  -- The configured car speaks for the logger if it was heard of; if it was not, or none is
  -- configured, and some car reports unhealthy, the logger is unhealthy.
  pub logger_health-selects :
      (m : Mqtt) (now : ℕ)
      → ((id : String) (car : CarObservation)
          → c.topics.primary_car_id ≡ some id
          → get_car id m.cars ≡ some car
          → (logger_health lower c now m).1.healthy ≡ car.healthy)
        × (((id : String) → c.topics.primary_car_id ≡ some id → get_car id m.cars ≡ none)
            → SomeUnhealthy m.cars
            → (logger_health lower c now m).1.healthy ≡ some false)
  logger_health-selects m now = (
    λ id car p known. elim (List-cases m.cars) [
      | inl e ↦ cc (get_car-nil id, e, known)
      | inr (x, rest, e) ↦
          healthy-logger_health m now x.0 x.1 rest e
          ∙ ap (λ (y : CarObservation). y.healthy)
              (select_car-known c.topics.primary_car_id id x.1 car m.cars p known)
    ],
    λ unknown bad. elim (List-cases m.cars) [
      | inl e ↦ absurd (rw e at bad)
      | inr (x, rest, e) ↦
          healthy-logger_health m now x.0 x.1 rest e
          ∙ select_car-unhealthy c.topics.primary_car_id x.1 m.cars unknown bad
    ],
  )
