-- ===== src/Lease/Lifecycle.antt =====
-- The guard of src/pitwall/leases/state.py against the lifecycle as a step relation.
use pitwall_gpu_broker.Prelude.{
  String, ◌≡◌, refl, ap, subst, ◌∙◌, ◌↔◌, inl, inr, true, some, List, [], ◌∷◌, arith, eq_iff,
  str_eq, Result, ok, err, Bool-cases, Option-cases, ◌>>=◌,
}
use pitwall_gpu_broker.Lease.{
  LeaseState, creating, waiting_runtime, waiting_probe, active, stopping, stopped, failed, expired,
  value, state_in, transitions, members, LeaseStateInput, text, TransitionError, find_member,
  coerce_lease_state, admit, transition_lease_state,
}

-- The lifecycle: a lease starts up in three stages, runs, and is torn down; it may fail at any
-- stage that is not final, and may expire once it runs.
pub data Step : LeaseState → LeaseState → Type 0 where
  pod_created : Step creating waiting_runtime
  runtime_up : Step waiting_runtime waiting_probe
  probe_passed : Step waiting_probe active
  stop_requested : Step active stopping
  pod_gone : Step stopping stopped
  active_expired : Step active expired
  stopping_expired : Step stopping expired
  creating_failed : Step creating failed
  runtime_failed : Step waiting_runtime failed
  probe_failed : Step waiting_probe failed
  active_failed : Step active failed
  stopping_failed : Step stopping failed

-- What the table allows is a step.
allowed-Step : (s t : LeaseState) → state_in t (transitions s) ≡ true → Step s t
unfolding state_in transitions
allowed-Step creating waiting_runtime h = pod_created
allowed-Step creating failed h = creating_failed
allowed-Step waiting_runtime waiting_probe h = runtime_up
allowed-Step waiting_runtime failed h = runtime_failed
allowed-Step waiting_probe active h = probe_passed
allowed-Step waiting_probe failed h = probe_failed
allowed-Step active stopping h = stop_requested
allowed-Step active expired h = active_expired
allowed-Step active failed h = active_failed
allowed-Step stopping stopped h = pod_gone
allowed-Step stopping expired h = stopping_expired
allowed-Step stopping failed h = stopping_failed
allowed-Step _ _ h = cc

Step-allowed : {s t : LeaseState} → Step s t → state_in t (transitions s) ≡ true
unfolding state_in transitions
Step-allowed pod_created = refl
Step-allowed runtime_up = refl
Step-allowed probe_passed = refl
Step-allowed stop_requested = refl
Step-allowed pod_gone = refl
Step-allowed active_expired = refl
Step-allowed stopping_expired = refl
Step-allowed creating_failed = refl
Step-allowed runtime_failed = refl
Step-allowed probe_failed = refl
Step-allowed active_failed = refl
Step-allowed stopping_failed = refl

admit-Step : (s t u : LeaseState) → admit s t ≡ ok u → (t ≡ u) × Step s u
unfolding admit
admit-Step s t u h = elim (Bool-cases (state_in t (transitions s))) [
  | inl allowed ↦ let e : t ≡ u = ground arith in (e, subst (Step s) e (allowed-Step s t allowed))
  | inr refused ↦ cc
]

Step-admit : {s t : LeaseState} → Step s t → admit s t ≡ ok t
unfolding admit
Step-admit st = rw (Step-allowed st)

between :
    (ri rj : Result TransitionError LeaseState) (t : LeaseState)
    → (do s ← ri; u ← rj; admit s u) ≡ ok t
    → (s : LeaseState) × (ri ≡ ok s) × (rj ≡ ok t) × Step s t
between (ok s) (ok u) t h = let (e, st) = admit-Step s u t h in (s, refl, ap ok e, st)
between (ok s) (err x) t h = cc
between (err x) rj t h = cc

-- The guard accepts exactly the steps of the lifecycle between the states that its two arguments
-- stand for, and returns the target.
pub transition_iff_Step :
    (from_state to_state : LeaseStateInput) (t : LeaseState)
    → (transition_lease_state from_state to_state ≡ ok t) ↔ (
        (s : LeaseState) × (coerce_lease_state from_state ≡ ok s)
        × (coerce_lease_state to_state ≡ ok t)
        × Step s t)
unfolding transition_lease_state
transition_iff_Step i j t = (
  between (coerce_lease_state i) (coerce_lease_state j) t,
  λ (s, ei, ej, st). rw (ei, ej, Step-admit st),
)

-- A text is read as a state exactly when it is that state's value.
coerce-value : (s : LeaseState) → coerce_lease_state (text (value s)) ≡ ok s
unfolding coerce_lease_state find_member value
coerce-value creating = refl
coerce-value waiting_runtime = refl
coerce-value waiting_probe = refl
coerce-value active = refl
coerce-value stopping = refl
coerce-value stopped = refl
coerce-value failed = refl
coerce-value expired = refl

find_member-value :
    (ss : List LeaseState) (v : String) (s : LeaseState) → find_member ss v ≡ some s → v ≡ value s
unfolding find_member
find_member-value [] v s h = cc
find_member-value (x ∷ ss) v s h = elim (Bool-cases (str_eq v (value x))) [
  | inl same ↦ (eq_iff v (value x)).0 same ∙ ap value (ground arith)
  | inr differs ↦ find_member-value ss v s (ground arith)
]

coerced-value : (v : String) (s : LeaseState) → coerce_lease_state (text v) ≡ ok s → v ≡ value s
unfolding coerce_lease_state
coerced-value v s h = elim (Option-cases (find_member members v)) [
  | inl missing ↦ ground arith
  | inr (t, e) ↦ find_member-value members v s (ground arith)
]

-- Reading a persisted text back gives the state that was written, and nothing else reads as it.
pub coerce_roundtrip :
    (v : String) (s : LeaseState) → (coerce_lease_state (text v) ≡ ok s) ↔ (v ≡ value s)
coerce_roundtrip v s = (coerced-value v s, λ e. rw e (coerce-value s))
