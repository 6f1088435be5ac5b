-- ===== src/StateMachine/Confirmation.antt =====
-- The machine over a history of observations, the latest first, against a description that counts
-- agreeing observations in the history itself.
use teslamate_watchdog.Shared.{
  ℕ, suc, ◌≡◌, refl, ◌≢◌, ◌↔◌, ◌⊎◌, ◌≤◌, true, false, ◌||◌, none, some, List, [], ◌∷◌, ◌++◌, arith,
  leb, le→leb, if◌then◌else◌, All, length,
}
use teslamate_watchdog.Config.{Config}
use teslamate_watchdog.StateMachine.{
  State, healthy, recovering, Observation, Machine, Transition, evaluate, new_machine, is_candidate,
  required, step,
}
use teslamate_watchdog.StateMachine.States.{is, is_iff, is_self}
use teslamate_watchdog.StateMachine.Decision.{evaluate-immediate, evaluate-ne-recovering}

-- How many of the latest conclusive observations agree on `s`, without interruption.
unfoldable pub trailing : State → List Observation → ℕ
trailing s [] = 0
trailing s (o ∷ past) =
    let rest = trailing s past in
    if (evaluate o).inconclusive then rest else if is (evaluate o).state s then suc rest else 0

-- how many agreeing observations bring the machine to a state
unfoldable pub needed : Config → State → ℕ
needed c s = if is s healthy then c.recovery_confirmation_count else required c s

-- The state as a function of the history: the latest conclusive observation decides, if it needs
-- no confirmation or enough of the latest conclusive ones agree with it.
unfoldable pub confirmed : Config → State → List Observation → State
confirmed c initial [] = initial
confirmed c initial (o ∷ past) =
    let before = confirmed c initial past in
    let e = evaluate o in
    if e.inconclusive
    then before
    else if e.immediate || leb (needed c e.state) (trailing e.state (o ∷ past))
    then e.state
    else before

-- `StateMachine(config, initial=…)`, and then a `step` for each observation
unfoldable pub run : Config → State → List Observation → Machine
run c initial [] = new_machine initial
run c initial (o ∷ past) = (step c o (run c initial past)).0

module _ (c : Config) (initial : State) where
  -- what the counters of the machine say of the history
  record Counts (past : List Observation) (m : Machine) : Type 0 where
    held : m.state ≢ recovering
    state : m.state ≡ confirmed c initial past
    healthy_count : m.healthy_streak ≡ trailing healthy past
    count :
        (s : State)
        → s ≢ healthy
        → trailing s past ≡ (if is_candidate s m.candidate then m.candidate_streak else 0)

  new_machine-Counts : initial ≢ recovering → Counts [] (new_machine initial)
  unfolding new_machine trailing confirmed
  new_machine-Counts h = record {
    held = h;
    state = refl;
    healthy_count = refl;
    count = λ s f. refl;
  }

  step-Counts :
      (o : Observation) (past : List Observation) (m : Machine)
      → Counts past m
      → Counts (o ∷ past) (step c o m).0
  unfolding step trailing confirmed needed
  step-Counts o past m h = record {
    held = ground (
      arith,
      h.held,
      is_iff m.state recovering,
      evaluate-ne-recovering o,
      is_iff (evaluate o).state healthy,
    );
    state = ground (
      arith,
      h.held,
      h.state,
      h.healthy_count,
      h.count (evaluate o).state,
      is_iff m.state recovering,
      is_iff m.state healthy,
      is_iff m.state (evaluate o).state,
      is_iff (evaluate o).state healthy,
      is_self (evaluate o).state,
      evaluate-immediate o,
    );
    healthy_count = ground (
      arith,
      h.held,
      h.healthy_count,
      is_iff m.state recovering,
      is_iff (evaluate o).state healthy,
    );
    count = λ s f. ground (
      arith,
      h.held,
      h.count s f,
      is_iff m.state recovering,
      is_iff (evaluate o).state healthy,
      is_iff (evaluate o).state s,
      is_iff s (evaluate o).state,
      is_self s,
    );
  }

  run-Counts : initial ≢ recovering → (past : List Observation) → Counts past (run c initial past)
  unfolding run
  run-Counts h [] = new_machine-Counts h
  run-Counts h (o ∷ past) = step-Counts o past (run c initial past) (run-Counts h past)

  -- After any history the state of a machine that did not begin at RECOVERING is the one that a
  -- description without counters reads off the history.
  pub run-confirmed :
      (past : List Observation)
      → initial ≢ recovering
      → (run c initial past).state ≡ confirmed c initial past
  run-confirmed past h = (run-Counts h past).state

  trailing-of_agreeing :
      (s : State) (latest past : List Observation)
      → All (λ o. ((evaluate o).inconclusive ≡ false) × ((evaluate o).state ≡ s)) latest
      → length latest ≤ trailing s (latest ++ past)
  unfolding trailing
  trailing-of_agreeing s [] past h = omega arith
  trailing-of_agreeing s (o ∷ latest) past h =
      ground (arith, trailing-of_agreeing s latest past h.1, is_iff (evaluate o).state s)

  -- If a machine did not begin at RECOVERING, enough conclusive observations of one state in a row
  -- bring it to that state, whatever came before.
  pub run-reaches :
      (s : State) (o : Observation) (latest past : List Observation)
      → initial ≢ recovering
      → All (λ o. ((evaluate o).inconclusive ≡ false) × ((evaluate o).state ≡ s)) (o ∷ latest)
      → needed c s ≤ length (o ∷ latest)
      → (run c initial (o ∷ latest ++ past)).state ≡ s
  unfolding confirmed
  run-reaches s o latest past h all enough = rw (run-confirmed (o ∷ (latest ++ past)) h) (
      ground
        (arith, all, trailing-of_agreeing s (o ∷ latest) past all, enough, le→leb (needed c s)))

  -- If a machine did not begin at RECOVERING and an observation changes its state, then the
  -- observation is conclusive, the new state is the one decided on, and the decision was immediate
  -- or enough of the latest conclusive observations agree on it.
  pub run_changes :
      (o : Observation) (past : List Observation)
      → initial ≢ recovering
      → (run c initial (o ∷ past)).state ≢ (run c initial past).state
      → ((evaluate o).inconclusive ≡ false)
        × ((run c initial (o ∷ past)).state ≡ (evaluate o).state)
        × (((evaluate o).immediate ≡ true)
            ⊎ (needed c (evaluate o).state ≤ trailing (evaluate o).state (o ∷ past)))
  unfolding confirmed
  run_changes o past h changed = ground (arith, run-confirmed past h, run-confirmed (o ∷ past) h)

-- A step reports no transition exactly if the state stays the same, and a reported one names the
-- state before and the state after.
pub step_reports :
    (c : Config) (o : Observation) (m : Machine)
    → (((step c o m).1 ≡ none) ↔ ((step c o m).0.state ≡ m.state))
      × ((t : Transition)
          → (step c o m).1 ≡ some t
          → (t.previous ≡ m.state) × (t.current ≡ (step c o m).0.state))
unfolding step
step_reports c o m = (
  ground (
    arith,
    is_iff m.state recovering,
    is_iff m.state healthy,
    is_iff m.state (evaluate o).state,
    is_iff (evaluate o).state healthy,
  ),
  λ t e. ground arith,
)

-- Observations never bring a machine to `recovering`.
pub step-ne-recovering :
    (c : Config) (o : Observation) (m : Machine)
    → is m.state recovering ≡ false
    → is (step c o m).0.state recovering ≡ false
unfolding step
step-ne-recovering c o m h = ground (
  arith,
  is_iff healthy recovering,
  is_iff (evaluate o).state recovering,
  evaluate-ne-recovering o,
)

-- An observation of the state that the machine is in already changes no state.
pub step_same :
    (c : Config) (o : Observation) (m : Machine)
    → (evaluate o).state ≡ m.state
    → (step c o m).0.state ≡ m.state
unfolding step
step_same c o m h = ground (
  arith,
  is_iff m.state healthy,
  is_iff (evaluate o).state healthy,
  is_iff m.state (evaluate o).state,
)
