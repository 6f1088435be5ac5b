-- ===== src/Recovery/Raising/Rules.antt =====
-- What holds of an action, whether it ends or raises.
use teslamate_watchdog.Shared.{
  ◌≡◌, Bool, true, false, Option, none, some, List, Bool-cases, inl, inr,
}
use teslamate_watchdog.Events.{Event}
use teslamate_watchdog.Recovery.{World, publish}
use teslamate_watchdog.Recovery.Raising.{Action, pure, modify, go_on, ◌>>=◌, branch, say}

-- After an action: the result meets `Q`, or an exception left a world that meets `R`.
abbrev pub Holds :
    {A : Type 0} (Q : A → World → Type 0) (R : World → Type 0) → Option A → World → Type 0
Holds Q R none w = R w
Holds Q R (some a) w = Q a w

-- From `P`, the action ends in `Q` or raises in `R`.
pub record Does {A : Type 0} (P : World → Type 0) (m : Action A) (Q : A → World → Type 0)
    (R : World → Type 0) : Type 0 where
  pub run : (w : World) → P w → Holds Q R (m w).0 (m w).1

go_on-Holds :
    {A B : Type 0} (Q : A → World → Type 0) (S : B → World → Type 0) (R : World → Type 0)
    (r : Option A) (f : A → Action B) (w : World)
    → Holds Q R r w
    → ((a : A) → Does (Q a) (f a) S R)
    → Holds S R (go_on r f w).0 (go_on r f w).1
go_on-Holds Q S R none f w h k = h
go_on-Holds Q S R (some a) f w h k = (k a).run w h

module _ {P : World → Type 0} {R : World → Type 0} where
  pub >>=-Does :
      {A B : Type 0} {m : Action A} {f : A → Action B} (Q : A → World → Type 0)
      {S : B → World → Type 0}
      → Does P m Q R
      → ((a : A) → Does (Q a) (f a) S R)
      → Does P (m >>= f) S R
  unfolding ◌>>=◌
  >>=-Does {m} {f} Q {S} h k = record {
    run = λ w p. go_on-Holds Q S R (m w).0 f (m w).1 (h.run w p) k;
  }

  pub branch-Does :
      {A : Type 0} {m n : Action A} {S : A → World → Type 0} (b : Bool)
      → Does P m S R
      → Does P n S R
      → Does P (branch b m n) S R
  unfolding branch
  branch-Does true h k = h
  branch-Does false h k = k

  pub modify-Does :
      (f : World → World) (Q : World → Type 0)
      → ((w : World) → P w → Q (f w))
      → Does P (modify f) (λ _. Q) R
  unfolding modify
  modify-Does f Q h = record { run = h }

  pub pure-Does :
      {A : Type 0} (a : A) (Q : A → World → Type 0)
      → ((w : World) → P w → Q a w)
      → Does P (pure a) Q R
  unfolding pure
  pure-Does a Q h = record { run = h }

-- An exception of `publish_event` leaves the world as it was.
pub say-Does :
    (raises : List Event → Event → Bool) (P R : World → Type 0) (e : World → Event)
    → ((w : World) → P w → P (publish (e w) w))
    → ((w : World) → P w → R w)
    → Does P (say raises e) (λ _. P) R
unfolding say
say-Does raises P R e keep stop = record {
  run = λ w p. elim (Bool-cases (raises w.events (e w))) [
    | inl x ↦ rw x (stop w p)
    | inr x ↦ rw x (keep w p)
  ];
}

-- an event whose publishing does not raise
pub certain-Does :
    (raises : List Event → Event → Bool) (P R : World → Type 0) (e : World → Event)
    → ((w : World) → raises w.events (e w) ≡ false)
    → ((w : World) → P w → P (publish (e w) w))
    → Does P (say raises e) (λ _. P) R
unfolding say
certain-Does raises P R e sure keep = record { run = λ w p. rw (sure w) (keep w p) }
