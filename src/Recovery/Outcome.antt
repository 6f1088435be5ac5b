-- ===== src/Recovery/Outcome.antt =====
-- How a recovery ends, as a function of the observations made after its wait.
use teslamate_watchdog.Shared.{
  ℕ, suc, ◌≡◌, refl, inl, inr, Bool-cases, Bool, true, false, Option, none, some, List, [], ◌∷◌,
  arith, ltb, leb, if◌then◌else◌,
}
use teslamate_watchdog.Python.{Python}
use teslamate_watchdog.Config.{Config}
use teslamate_watchdog.StateMachine.{
  healthy, manual_intervention_required, Observation, evaluate, force_state,
}
use teslamate_watchdog.StateMachine.States.{is}
use teslamate_watchdog.Recovery.{Progress, World, Outside, recovered, manual_required, step}

-- one cycle: what the world outside answers, and the observation
abbrev pub Input : Type 0
Input = Outside × Observation

-- The observations, latest first, that are made when the wait is over.
unfoldable pub ready : ℕ → List Input → List Observation
ready deadline [] = []
ready deadline ((env, o) ∷ past) =
    let rest = ready deadline past in if ltb env.times.monotonic deadline then rest else o ∷ rest

-- How many of the latest conclusive observations are healthy, and how many are not.
unfoldable pub healthy_run : List Observation → ℕ
healthy_run [] = 0
healthy_run (o ∷ past) =
    let rest = healthy_run past in
    if (evaluate o).inconclusive
    then rest
    else if is (evaluate o).state healthy
    then suc rest
    else 0

unfoldable pub failure_run : List Observation → ℕ
failure_run [] = 0
failure_run (o ∷ past) =
    let rest = failure_run past in
    if (evaluate o).inconclusive
    then rest
    else if is (evaluate o).state healthy
    then 0
    else suc rest

-- The outcome, latest observation first: true once enough healthy ones stand in a row, false once
-- enough others do, whichever comes first.
unfoldable pub outcome : Config → List Observation → Option Bool
outcome c [] = none
outcome c (o ∷ past) =
    let before = outcome c past in
    elim before [
      | some b ↦ some b
      | none ↦
          if (evaluate o).inconclusive
          then none
          else if is (evaluate o).state healthy
          then (if leb c.recovery_confirmation_count (healthy_run (o ∷ past))
              then some true
              else none)
          else if leb c.failure_confirmation_count (failure_run (o ∷ past))
          then some false
          else none
    ]

-- A recovery that began in the world `w` with the progress `p` stands as the outcome says.
abbrev pub Stands : World → Progress → List Observation → Option Bool → World → Type 0
Stands w p past none w' =
    (w'.progress
      ≡ some (record p { healthy_streak = healthy_run past; failure_streak = failure_run past }))
    × (w'.machine ≡ w.machine)
    × (w'.events ≡ w.events)
Stands w p past (some true) w' =
    (w'.progress ≡ none) × (w'.machine.state ≡ healthy) × (w'.status ≡ recovered)
Stands w p past (some false) w' =
    (w'.progress ≡ none)
    × (w'.machine.state ≡ manual_intervention_required)
    × (w'.status ≡ manual_required)

module _ (py : Python) (c : Config) where
  -- a `step` for each input, latest first
  unfoldable pub steps : World → List Input → World
  steps w [] = w
  steps w ((env, o) ∷ past) = step py c env o (steps w past)

  step_waiting-Stands :
      (w : World) (p : Progress) (env : Outside) (o : Observation) (seen : List Observation)
      (before : Option Bool) (w' : World)
      → ltb env.times.monotonic p.deadline ≡ true
      → Stands w p seen before w'
      → Stands w p seen before (step py c env o w')
  unfolding step
  step_waiting-Stands w p env o seen none w' wait h = ground arith
  step_waiting-Stands w p env o seen (some true) w' wait h = ground arith
  step_waiting-Stands w p env o seen (some false) w' wait h = ground arith

  step_confirming-Stands :
      (w : World) (p : Progress) (env : Outside) (o : Observation) (seen : List Observation)
      (before : Option Bool) (w' : World)
      → ltb env.times.monotonic p.deadline ≡ false
      → outcome c seen ≡ before
      → Stands w p seen before w'
      → Stands w p (o ∷ seen) (outcome c (o ∷ seen)) (step py c env o w')
  unfolding step healthy_run failure_run outcome force_state
  step_confirming-Stands w p env o seen none w' over e h = rw e (ground arith)
  step_confirming-Stands w p env o seen (some true) w' over e h = rw e (ground arith)
  step_confirming-Stands w p env o seen (some false) w' over e h = rw e (ground arith)

  step-Stands :
      (w : World) (p : Progress) (env : Outside) (o : Observation) (past : List Input) (w' : World)
      → Stands w p (ready p.deadline past) (outcome c (ready p.deadline past)) w'
      → let now = ready p.deadline ((env, o) ∷ past) in
        Stands w p now (outcome c now) (step py c env o w')
  unfolding ready
  step-Stands w p env o past w' h =
      let seen = ready p.deadline past in
      elim (Bool-cases (ltb env.times.monotonic p.deadline)) [
        | inl wait ↦ rw wait (step_waiting-Stands w p env o seen (outcome c seen) w' wait h)
        | inr over ↦ rw over (step_confirming-Stands w p env o seen (outcome c seen) w' over refl h)
      ]

  -- From a world with a recovery whose streaks are 0, after any inputs: the recovery is in
  -- progress, the machine untouched and no event published, until enough observations after the
  -- wait agree; then it has ended as these say.
  pub steps-outcome :
      (w : World) (p : Progress) (inputs : List Input)
      → w.progress ≡ some p
      → p.healthy_streak ≡ 0
      → p.failure_streak ≡ 0
      → let seen = ready p.deadline inputs in Stands w p seen (outcome c seen) (steps w inputs)
  unfolding steps
  steps-outcome w p [] e g b = unfold ready outcome healthy_run failure_run in ground arith
  steps-outcome w p ((env, o) ∷ past) e g b =
      step-Stands w p env o past (steps w past) (steps-outcome w p past e g b)
