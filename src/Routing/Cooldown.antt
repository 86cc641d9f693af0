-- ===== src/Routing/Cooldown.antt =====
-- src/pitwall/routing/cooldown.py: the health cooldown of a provider. Instants and durations are
-- in microseconds, which is what `datetime` and `timedelta` hold; instants are in UTC.
pub mod Schedule
pub mod Probes
use pitwall_gpu_broker.Prelude.{
  ℕ, ◌+◌, ◌/◌, String, ◌≡◌, refl, Bool, false, Option, none, some, ltb, leb, ◌==◌, str_eq,
  if◌then◌else◌, Result, ok, err, raise_if, ◌>>=◌, ◌>>◌,
}

pub record ProviderCooldownState : Type 0 where
  pub consecutive_failures : ℕ
  pub cooldown_trips : ℕ
  pub cooldown_until : Option ℕ
  pub health_status : String

pub record CooldownPolicy : Type 0 where
  pub failure_threshold : ℕ
  pub initial_cooldown : ℕ
  pub escalated_cooldown : ℕ

-- The messages of the `ValueError`s.
pub data CooldownError : Type 0 where
  empty_health_status trip_below_one initial_not_positive escalated_below_initial : CooldownError
  threshold_below_one : CooldownError

abbrev pub default_cooldown_policy : CooldownPolicy
default_cooldown_policy = record {
  failure_threshold = 3;
  initial_cooldown = 300000000;
  escalated_cooldown = 900000000;
}

-- `ProviderCooldownState(...)` with its `__post_init__`.
pub provider_cooldown_state : ℕ → ℕ → Option ℕ → String → Result CooldownError ProviderCooldownState
provider_cooldown_state failures trips until status =
    if str_eq status ""
    then err empty_health_status
    else ok (record {
      consecutive_failures = failures;
      cooldown_trips = trips;
      cooldown_until = until;
      health_status = status;
    })

pub cooldown_duration_for_trip : ℕ → CooldownPolicy → Result CooldownError ℕ
cooldown_duration_for_trip cooldown_trip policy = do
  raise_if (ltb cooldown_trip 1) trip_below_one
  raise_if (leb policy.initial_cooldown 0) initial_not_positive
  raise_if (ltb policy.escalated_cooldown policy.initial_cooldown) escalated_below_initial
  ok (if cooldown_trip == 1 then policy.initial_cooldown else policy.escalated_cooldown)

pub validate_policy : CooldownPolicy → Result CooldownError (Unit {0})
unfolding cooldown_duration_for_trip
validate_policy policy = do
  raise_if (ltb policy.failure_threshold 1) threshold_below_one
  cooldown_duration_for_trip 1 policy
  ok tt

pub is_in_cooldown : ProviderCooldownState → ℕ → Bool
is_in_cooldown state now = elim state.cooldown_until [ none ↦ false | some until ↦ ltb now until ]

-- An elapsed window is forgotten.
abbrev open_window : Option ℕ → ℕ → Option ℕ
open_window none now = none
open_window (some until) now = if leb until now then none else some until

pub record_provider_success : ProviderCooldownState → Result CooldownError ProviderCooldownState
unfolding provider_cooldown_state
record_provider_success state = provider_cooldown_state 0 0 none "healthy"

-- What a failure outside a cooldown window does.
count_failure :
    ProviderCooldownState → ℕ → CooldownPolicy → Result CooldownError ProviderCooldownState
unfolding provider_cooldown_state cooldown_duration_for_trip
count_failure current now policy =
    let failures = current.consecutive_failures + 1 in
    let next_trip = failures / policy.failure_threshold in
    if ltb current.cooldown_trips next_trip
    then (do
      duration ← cooldown_duration_for_trip next_trip policy
      provider_cooldown_state failures next_trip (some (now + duration)) "unhealthy")
    else provider_cooldown_state failures current.cooldown_trips
        (open_window current.cooldown_until now) current.health_status

pub record_provider_failure :
    ProviderCooldownState → ℕ → CooldownPolicy → Result CooldownError ProviderCooldownState
unfolding validate_policy is_in_cooldown count_failure
record_provider_failure current now policy = do
  validate_policy policy
  if is_in_cooldown current now then ok current else count_failure current now policy

pub apply_probe_result :
    ProviderCooldownState → Bool → ℕ → CooldownPolicy → Result CooldownError ProviderCooldownState
unfolding record_provider_success record_provider_failure
apply_probe_result state passed now policy =
    if passed then record_provider_success state else record_provider_failure state now policy
