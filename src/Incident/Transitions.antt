-- ===== src/Incident/Transitions.antt =====
-- internal/incident/state.go: the transition table of incidents.
use health_monitor_sre_engin.Common.{
  ℕ, ◌+◌, ◌≤◌, ◌<◌, String, ◌≡◌, refl, arith, Option, none, some, ◌≢◌, List, [], ◌∷◌, length,
}
use health_monitor_sre_engin.Incident.{
  State, unset, suggested, started, acknowledged, resolved, other_state,
}

pub data TransitionError : Type 0 where
  already_resolved invalid_transition : TransitionError

-- ValidateTransition; `none` is the nil error.
unfoldable pub validate_transition : State → State → Option TransitionError
validate_transition unset suggested = none
validate_transition unset started = none
validate_transition suggested started = none
validate_transition suggested resolved = none
validate_transition started acknowledged = none
validate_transition started resolved = none
validate_transition acknowledged resolved = none
validate_transition resolved _ = some already_resolved
validate_transition _ _ = some invalid_transition

-- The life cycle that the table is to allow.
infix 40 ◌⟶◌ ◌⟶*◌
pub data ◌⟶◌ : State → State → Type 0 where
  propose : unset ⟶ suggested
  open_new : unset ⟶ started
  promote : suggested ⟶ started
  dismiss : suggested ⟶ resolved
  take_up : started ⟶ acknowledged
  close_started : started ⟶ resolved
  close_taken : acknowledged ⟶ resolved

pub data ◌⟶*◌ : State → State → Type 0 where
  here : {s : State} → s ⟶* s
  step : {s t u : State} → s ⟶ t → t ⟶* u → s ⟶* u

ruleset edges = (propose, open_new, promote, dismiss, take_up, close_started, close_taken)

edge-accepted : {s t : State} → s ⟶ t → validate_transition s t ≡ none
unfolding validate_transition
edge-accepted propose = refl
edge-accepted open_new = refl
edge-accepted promote = refl
edge-accepted dismiss = refl
edge-accepted take_up = refl
edge-accepted close_started = refl
edge-accepted close_taken = refl

accepted-edge : (s t : State) → validate_transition s t ≡ none → s ⟶ t
unfolding validate_transition
accepted-edge s t h = grind (arith, edges)

-- The table accepts a transition exactly when it is an edge of the life cycle.
pub validate_transition_iff :
    (s t : State)
    → (validate_transition s t ≡ none → s ⟶ t) × (s ⟶ t → validate_transition s t ≡ none)
validate_transition_iff s t = (accepted-edge s t, edge-accepted)

-- How far an incident has come.
abbrev stage : State → ℕ
stage unset = 0
stage suggested = 1
stage started = 2
stage acknowledged = 3
stage resolved = 4
stage (other_state s) = 5

-- A run through the table: each state is reached from the one before by an accepted transition.
abbrev pub Accepted : State → List State → Type 0
Accepted s [] = Unit
Accepted s (t ∷ ts) = (validate_transition s t ≡ none) × Accepted t ts

stage-step : (s t : State) → validate_transition s t ≡ none → (stage s < stage t) × (stage t ≤ 4)
unfolding validate_transition
stage-step s t h = ground arith

stage-run :
    (s t : State) (ts : List State)
    → validate_transition s t ≡ none
    → Accepted t ts
    → stage s + length (t ∷ ts) ≤ 4
stage-run s t [] h k = omega (arith, stage-step s t h)
stage-run s t (u ∷ us) h k = omega (arith, stage-step s t h, stage-run t u us k.0 k.1)

-- Whatever accepted transitions are made, an incident changes its state at most four times.
pub transitions_bounded : (s : State) (ts : List State) → Accepted s ts → length ts ≤ 4
transitions_bounded s [] h = omega arith
transitions_bounded s (t ∷ ts) h = omega (arith, stage-run s t ts h.0 h.1)

-- the state after a run
abbrev pub end_of : State → List State → State
end_of s [] = s
end_of s (t ∷ ts) = end_of t ts

-- From every state but the unknown ones, transitions that ValidateTransition accepts, two at most, lead to
-- the resolved state.
pub resolvable :
    (s : State)
    → ((x : String) → s ≢ other_state x)
    → (ts : List State) × Accepted s ts × (end_of s ts ≡ resolved) × (length ts ≤ 2)
unfolding validate_transition
resolvable unset _ = (started ∷ resolved ∷ [], (refl, (refl, tt)), refl, omega arith)
resolvable suggested _ = (resolved ∷ [], (refl, tt), refl, omega arith)
resolvable started _ = (resolved ∷ [], (refl, tt), refl, omega arith)
resolvable acknowledged _ = (resolved ∷ [], (refl, tt), refl, omega arith)
resolvable resolved _ = ([], tt, refl, omega arith)
resolvable (other_state x) h = absurd (h x refl)
