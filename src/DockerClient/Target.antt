-- ===== src/DockerClient/Target.antt =====
-- Which container `DockerClient.resolve` finds, and which one `DockerClient.restart` can restart.
use mathlib.Core.Path.{subst}
use teslamate_watchdog.Shared.{
  ℕ, String, ◌≡◌, refl, ◌≢◌, ◌↔◌, ◌⊎◌, inl, inr, Option-cases, Bool, true, false, Bool-cases, leb,
  Option, none, some, List, [], ◌∷◌, arith, eq_iff, opt_eq, if◌then◌else◌,
}
use teslamate_watchdog.Shared.Text.{fstring, str, take_chars}
use teslamate_watchdog.Config.{Config}
use teslamate_watchdog.DockerClient.{
  ping, get_json, Reply, failed, answered, unavailable, ContainerRef, Listed, Proxy, Post,
  timed_out, post_failed, responded, to_ref, is_named, resolve_from, resolve, post_result,
  restart_ref, restart,
}

-- the first element that passes a test
abbrev pub first {ℓ} : {A : Type ℓ} → (A → Bool) → List A → Option A
first p [] = none
first p (x ∷ xs) = let rest = first p xs in if p x then some x else rest

-- A container with the name wins; else the first one that bears it as a service label.
abbrev pub named_or_labelled : String → List Listed → Option ContainerRef
named_or_labelled configured entries = elim (first (is_named configured) entries) [
  | some entry ↦ some (to_ref entry)
  | none ↦ elim (first (λ e. opt_eq e.service configured) entries) [
    | some entry ↦ some (to_ref entry)
    | none ↦ none
  ]
]

resolve_from-found :
    (configured : String) (ref : ContainerRef) (entries : List Listed)
    → resolve_from configured (some ref) entries
      ≡ elim (first (is_named configured) entries) [ some e ↦ some (to_ref e) | none ↦ some ref ]
unfolding resolve_from
resolve_from-found configured ref [] = refl
resolve_from-found configured ref (e ∷ es) = ground (arith, resolve_from-found configured ref es)

-- The one pass of resolve finds the first container with the name, and if there is none the first
-- with the service label.
pub resolve_from-named_or_labelled :
    (configured : String) (entries : List Listed)
    → resolve_from configured none entries ≡ named_or_labelled configured entries
unfolding resolve_from
resolve_from-named_or_labelled configured [] = refl
resolve_from-named_or_labelled configured (e ∷ es) = ground (
  arith,
  resolve_from-named_or_labelled configured es,
  resolve_from-found configured (to_ref e) es,
)

posted-post_result : (ref : ContainerRef) (p : Post) → (post_result ref p).posted ≡ ref.id ∷ []
unfolding post_result
posted-post_result ref timed_out = refl
posted-post_result ref (post_failed e) = refl
posted-post_result ref (responded n t) = refl

opt_eq_iff : (o : Option String) (t : String) → (opt_eq o t ≡ true) ↔ (o ≡ some t)
opt_eq_iff none t = ground arith
opt_eq_iff (some s) t = ground (arith, eq_iff s t)

posted-restart_ref :
    (c : Config) (proxy : Proxy) (ref : ContainerRef) (id : String) (ids : List String)
    → (restart_ref c proxy ref).posted ≡ id ∷ ids
    → (ids ≡ [])
      × (ref.id ≡ id)
      × ((ref.name ≡ c.teslamate_container) ⊎ (ref.compose_service ≡ some c.teslamate_container))
      × (ref.name ≢ c.database_container)
      × (ref.compose_service ≢ some c.database_container)
unfolding restart_ref
posted-restart_ref c proxy ref id ids h = ground (
  arith,
  posted-post_result ref (proxy.restart_reply ref.id),
  eq_iff ref.name c.teslamate_container,
  eq_iff ref.name c.database_container,
  opt_eq_iff ref.compose_service c.teslamate_container,
  opt_eq_iff ref.compose_service c.database_container,
)

-- If restart asks Docker to restart anything, it is one container, the one that the configured
-- TeslaMate name resolves to, which bears that name or service label and bears the database's in
-- neither place.
pub restart-posted :
    (c : Config) (proxy : Proxy) (configured id : String) (ids : List String)
    → (restart c proxy configured).posted ≡ id ∷ ids
    → (configured ≡ c.teslamate_container)
      × (ids ≡ [])
      × ((ref : ContainerRef) × (resolve proxy configured ≡ some ref)
          × (ref.id ≡ id)
          × ((ref.name ≡ c.teslamate_container)
              ⊎ (ref.compose_service ≡ some c.teslamate_container))
          × (ref.name ≢ c.database_container)
          × (ref.compose_service ≢ some c.database_container))
unfolding restart
restart-posted c proxy configured id ids h = elim (Option-cases (resolve proxy configured)) [
  | inl e ↦ absurd (ground (arith, e))
  | inr (ref, e) ↦
      let found = posted-restart_ref c proxy ref id ids (ground (arith, e)) in
      (
        ground (arith, eq_iff configured c.teslamate_container),
        found.0,
        (ref, e, found.1, found.2, found.3, found.4),
      )
]

-- the response says that the container was restarted
abbrev pub IsDone : Post → Type 0
IsDone p = (n : ℕ) × (t : String) × (p ≡ responded n t) × ((n ≡ 204) ⊎ (n ≡ 304))

succeeded-post_result :
    (ref : ContainerRef) (p : Post) → ((post_result ref p).succeeded ≡ true) ↔ IsDone p
unfolding post_result
succeeded-post_result ref timed_out = (λ h. cc, λ h. cc h.2)
succeeded-post_result ref (post_failed e) = (λ h. cc, λ h. cc h.2)
succeeded-post_result ref (responded n t) =
    (λ h. (n, t, refl, ground arith), λ (n', t', e, h). ground arith)

succeeded-restart_ref :
    (c : Config) (proxy : Proxy) (ref : ContainerRef)
    → ((restart_ref c proxy ref).succeeded ≡ true)
      ↔ (((restart_ref c proxy ref).posted ≡ ref.id ∷ []) × IsDone (proxy.restart_reply ref.id))
unfolding restart_ref
succeeded-restart_ref c proxy ref =
    let p = proxy.restart_reply ref.id in
    (
      λ h. (
        ground (arith, posted-post_result ref p),
        (succeeded-post_result ref p).0 (ground arith),
      ),
      λ h. ground (arith, (succeeded-post_result ref p).1 h.1),
    )

-- A restart is reported as done exactly if one POST was made, for the container that the name
-- resolves to, and Docker answered it by 204 or 304.
pub restart-succeeded :
    (c : Config) (proxy : Proxy) (configured : String)
    → ((restart c proxy configured).succeeded ≡ true) ↔ (
        (ref : ContainerRef) × (resolve proxy configured ≡ some ref)
        × ((restart c proxy configured).posted ≡ ref.id ∷ [])
        × IsDone (proxy.restart_reply ref.id))
unfolding restart
restart-succeeded c proxy configured = elim (Option-cases (resolve proxy configured)) [
  | inl e ↦ (λ h. absurd (ground (arith, e)), λ h. cc (e, h.1))
  | inr (ref, e) ↦ (
    λ h.
        let (posted, done) = (succeeded-restart_ref c proxy ref).0 (ground (arith, e)) in
        (ref, e, ground (arith, e), done),
    λ (ref', e', posted, done).
        let same : ref' ≡ ref = cc (e, e') in
        let done' = subst (λ (x : ContainerRef). IsDone (proxy.restart_reply x.id)) same done in
        let posted' : (restart_ref c proxy ref).posted ≡ ref.id ∷ [] = ground (arith, e, same) in
        ground (arith, e, posted, (succeeded-restart_ref c proxy ref).1 (posted', done')),
  )
]

get_json-ping :
    {A : Type 0} (path : String) (reply : Reply A)
    → ping reply ≡ false
    → (error : String) × (get_json path reply ≡ unavailable error)
unfolding get_json ping
get_json-ping path (failed text) h = (text, refl)
get_json-ping path (answered code text body) h = elim (Bool-cases (leb 400 code)) [
  | inl e ↦
      (fstring ("GET " ∷ path ∷ " -> " ∷ str code ∷ " " ∷ take_chars 200 text ∷ []), rw e refl)
  | inr e ↦ absurd (ground (arith, e))
]

resolve-ping :
    (proxy : Proxy) (configured : String)
    → ping proxy.containers ≡ false
    → resolve proxy configured ≡ none
unfolding resolve
resolve-ping proxy configured h =
    let (error, e) = get_json-ping "/containers/json" proxy.containers h in rw (resolve, e) refl

-- While the proxy does not answer a ping, no restart is asked for.
pub restart-ping :
    (c : Config) (proxy : Proxy) (configured : String)
    → ping proxy.containers ≡ false
    → (restart c proxy configured).posted ≡ []
unfolding restart
restart-ping c proxy configured h = ground (arith, resolve-ping proxy configured h)
