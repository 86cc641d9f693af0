-- ===== src/Lease/History.antt =====
-- Histories of a lease: every persisted change of state goes through the guard of
-- src/pitwall/leases/state.py.
use pitwall_gpu_broker.Prelude.{
  ℕ, ◌+◌, ◌<◌, ◌≤◌, ◌≡◌, refl, ap, subst, ◌↔◌, true, false, not, List, [], ◌∷◌, arith, length,
  Result, ok, err, is_ok, ◌>>=◌, Result-cases, inl, inr, Bool-cases,
}
use pitwall_gpu_broker.Lease.{
  LeaseState, creating, waiting_runtime, waiting_probe, active, stopping, stopped, failed, expired,
  state_in, terminal_lease_states, active_lease_states, LeaseStateInput, member, TransitionError,
  coerce_lease_state, transition_lease_state,
}
use pitwall_gpu_broker.Lease.Lifecycle.{Step, transition_iff_Step}

-- The states that a lease is asked to move through, one guarded change after the other.
unfoldable pub walk : LeaseState → List LeaseState → Result TransitionError LeaseState
walk s [] = ok s
walk s (t ∷ ts) = do u ← transition_lease_state (member s) (member t); walk u ts

-- The number of changes that can still follow.
abbrev remaining : LeaseState → ℕ
remaining creating = 5
remaining waiting_runtime = 4
remaining waiting_probe = 3
remaining active = 2
remaining stopping = 1
remaining _ = 0

remaining-Step : {s t : LeaseState} → Step s t → remaining t < remaining s
remaining-Step Step.pod_created = omega arith
remaining-Step Step.runtime_up = omega arith
remaining-Step Step.probe_passed = omega arith
remaining-Step Step.stop_requested = omega arith
remaining-Step _ = omega arith

-- The guard between two members of the enum.
guard-Step : (s t u : LeaseState) → transition_lease_state (member s) (member t) ≡ ok u → Step s u
guard-Step s t u h =
    let (s', es, et, st) = (transition_iff_Step (member s) (member t) u).0 h in
    let e : s' ≡ s = unfold coerce_lease_state in cc in subst (λ x. Step x u) e st

Step-guard : {s t : LeaseState} → Step s t → transition_lease_state (member s) (member t) ≡ ok t
unfolding coerce_lease_state
Step-guard {s} {t} st = (transition_iff_Step (member s) (member t) t).1 (s, refl, refl, st)

walk_bound_from :
    (s t : LeaseState) (ts : List LeaseState)
    → walk s ts ≡ ok t
    → length ts + remaining t ≤ remaining s
unfolding walk
walk_bound_from s t [] h = let e : s ≡ t = cc in rw e (omega arith)
walk_bound_from s t (x ∷ ts) h =
    elim (Result-cases (transition_lease_state (member s) (member x))) [
      | inl (u, e) ↦
          let rest : walk u ts ≡ ok t = rw e at h in
          omega (arith, walk_bound_from u t ts rest, remaining-Step (guard-Step s x u e))
      | inr (x', e) ↦ let bad : err x' ≡ ok t = rw e at h in cc
    ]

remaining-le : (s : LeaseState) → remaining s ≤ 5
remaining-le creating = omega arith
remaining-le _ = omega arith

terminal-remaining : (s : LeaseState) → state_in s terminal_lease_states ≡ true → remaining s ≡ 0
unfolding state_in
terminal-remaining stopped h = refl
terminal-remaining failed h = refl
terminal-remaining expired h = refl
terminal-remaining _ h = cc

no_more :
    (s t : LeaseState) (ts : List LeaseState)
    → remaining s ≡ 0
    → walk s ts ≡ ok t
    → (ts ≡ []) × (t ≡ s)
unfolding walk
no_more s t [] z h = (refl, cc)
no_more s t (x ∷ ts) z h = absurd (omega (arith, walk_bound_from s t (x ∷ ts) h))

not_terminal-Step : (s : LeaseState) → state_in s terminal_lease_states ≡ false → Step s failed
unfolding state_in
not_terminal-Step creating h = Step.creating_failed
not_terminal-Step waiting_runtime h = Step.runtime_failed
not_terminal-Step waiting_probe h = Step.probe_failed
not_terminal-Step active h = Step.active_failed
not_terminal-Step stopping h = Step.stopping_failed
not_terminal-Step _ h = cc

-- No lease changes its state more than five times, and from a terminal state not at all.
walk_bound :
    (s t : LeaseState) (ts : List LeaseState)
    → walk s ts ≡ ok t
    → (length ts ≤ 5) × (state_in s terminal_lease_states ≡ true → (ts ≡ []) × (t ≡ s))
walk_bound s t ts h = (
  omega (arith, walk_bound_from s t ts h, remaining-le s),
  λ final. no_more s t ts (terminal-remaining s final) h,
)

divide : (s : LeaseState) → state_in s active_lease_states ≡ not (state_in s terminal_lease_states)
unfolding state_in
divide creating = refl
divide _ = refl

terminal-refuses :
    (s : LeaseState) (i : LeaseStateInput)
    → state_in s terminal_lease_states ≡ true
    → is_ok (transition_lease_state (member s) i) ≡ false
terminal-refuses s i final = elim (Result-cases (transition_lease_state (member s) i)) [
  | inr (x, e) ↦ rw e
  | inl (u, e) ↦
      let (s', es, _, st) = (transition_iff_Step (member s) i u).0 e in
      let same : s' ≡ s = unfold coerce_lease_state in cc in
      absurd
        (omega (arith, terminal-remaining s final, remaining-Step (subst (λ x. Step x u) same st)))
]

stuck-terminal :
    (s : LeaseState)
    → ((i : LeaseStateInput) → is_ok (transition_lease_state (member s) i) ≡ false)
    → state_in s terminal_lease_states ≡ true
stuck-terminal s stuck = elim (Bool-cases (state_in s terminal_lease_states)) [
  | inl final ↦ final
  | inr more ↦
      let accepted = Step-guard (not_terminal-Step s more) in
      let refused = stuck (member failed) in
      cc (ap (is_ok {E = TransitionError} {A = LeaseState}) accepted)
]

-- The two sets of states divide the enum, and a state is terminal exactly when the guard refuses
-- every change from it.
terminal_iff_stuck :
    (s : LeaseState)
    → (state_in s active_lease_states ≡ not (state_in s terminal_lease_states))
      × ((state_in s terminal_lease_states ≡ true) ↔ (
          (to_state : LeaseStateInput)
          → is_ok (transition_lease_state (member s) to_state) ≡ false))
terminal_iff_stuck s = (divide s, (λ final i. terminal-refuses s i final, stuck-terminal s))

-- From every state that is not terminal a lease can still be stopped.
active_can_stop :
    (s : LeaseState)
    → state_in s active_lease_states ≡ true
    → (ts : List LeaseState) × (walk s ts ≡ ok stopped)
unfolding walk state_in transition_lease_state
active_can_stop creating h =
    (waiting_runtime ∷ waiting_probe ∷ active ∷ stopping ∷ stopped ∷ [], refl)
active_can_stop waiting_runtime h = (waiting_probe ∷ active ∷ stopping ∷ stopped ∷ [], refl)
active_can_stop waiting_probe h = (active ∷ stopping ∷ stopped ∷ [], refl)
active_can_stop active h = (stopping ∷ stopped ∷ [], refl)
active_can_stop stopping h = (stopped ∷ [], refl)
active_can_stop _ h = absurd (cc h)
