-- ===== src/Lease.antt =====
-- src/pitwall/leases/state.py: the lifecycle of a pod lease, and the guard on its transitions.
pub mod Lifecycle
pub mod History
pub mod Tables
pub mod Service
pub mod Mutations
use pitwall_gpu_broker.Prelude.{
  String, Bool, true, false, Option, none, some, List, [], ◌∷◌, str_eq, if◌then◌else◌, Result, ok,
  err, ◌>>=◌, ◌≡◌, refl,
}

pub data LeaseState : Type 0 where
  creating waiting_runtime waiting_probe active stopping stopped failed expired : LeaseState

pub LeaseState-discrete : Discrete LeaseState
LeaseState-discrete = hlevel

-- `value` of the `StrEnum`.
unfoldable pub value : LeaseState → String
value creating = "creating"
value waiting_runtime = "waiting_runtime"
value waiting_probe = "waiting_probe"
value active = "active"
value stopping = "stopping"
value stopped = "stopped"
value failed = "failed"
value expired = "expired"

abbrev pub members : List LeaseState
members =
    creating ∷ waiting_runtime ∷ waiting_probe ∷ active ∷ stopping ∷ stopped ∷ failed ∷ expired ∷ []

-- `x in states`, for a frozenset of states.
unfoldable pub state_in : LeaseState → List LeaseState → Bool
unfolding LeaseState-discrete
state_in x [] = false
state_in x (y ∷ ys) = elim (LeaseState-discrete x y) [ yes _ ↦ true | no _ ↦ state_in x ys ]

-- `LEASE_STATE_TRANSITIONS`
unfoldable pub transitions : LeaseState → List LeaseState
transitions creating = waiting_runtime ∷ failed ∷ []
transitions waiting_runtime = waiting_probe ∷ failed ∷ []
transitions waiting_probe = active ∷ failed ∷ []
transitions active = stopping ∷ expired ∷ failed ∷ []
transitions stopping = stopped ∷ expired ∷ failed ∷ []
transitions stopped = []
transitions failed = []
transitions expired = []

-- `TERMINAL_LEASE_STATES` and `ACTIVE_LEASE_STATES`
abbrev pub terminal_lease_states : List LeaseState
terminal_lease_states = stopped ∷ failed ∷ expired ∷ []

abbrev pub active_lease_states : List LeaseState
active_lease_states = creating ∷ waiting_runtime ∷ waiting_probe ∷ active ∷ stopping ∷ []

-- What a caller may pass: a member of the enum, a text, or a value of another type.
pub data LeaseStateInput : Type 0 where
  member : LeaseState → LeaseStateInput
  text : String → LeaseStateInput
  other : LeaseStateInput

pub data TransitionError : Type 0 where
  illegal_transition : LeaseState → LeaseState → TransitionError
  not_a_lease_state : String → TransitionError
  wrong_type : TransitionError

-- `LeaseState(text)`: the member with that value, found in order.
pub find_member : List LeaseState → String → Option LeaseState
unfolding value
find_member [] v = none
find_member (s ∷ ss) v = if str_eq v (value s) then some s else find_member ss v

pub coerce_lease_state : LeaseStateInput → Result TransitionError LeaseState
coerce_lease_state (member s) = ok s
coerce_lease_state (text v) = elim (find_member members v) [
  | some s ↦ ok s
  | none ↦ err (not_a_lease_state v)
]
coerce_lease_state other = err wrong_type

-- The test against the table.
pub admit : LeaseState → LeaseState → Result TransitionError LeaseState
unfolding state_in transitions
admit current target =
    if state_in target (transitions current)
    then ok target
    else err (illegal_transition current target)

unfoldable pub transition_lease_state :
    LeaseStateInput → LeaseStateInput → Result TransitionError LeaseState
unfolding coerce_lease_state find_member admit
transition_lease_state from_state to_state = do
  current ← coerce_lease_state from_state
  target ← coerce_lease_state to_state
  admit current target

unfoldable pub can_transition_lease :
    LeaseStateInput → LeaseStateInput → Result TransitionError Bool
unfolding coerce_lease_state find_member state_in transitions
can_transition_lease from_state to_state = do
  current ← coerce_lease_state from_state
  target ← coerce_lease_state to_state
  ok (state_in target (transitions current))

may_stop : transition_lease_state (text "active") (member stopping) ≡ ok stopping
unfolding transition_lease_state
may_stop = refl
