-- ===== src/Tests/Cooldowns.antt =====
-- Tests of the provider cooldown (src/pitwall/routing/cooldown.py).
use pitwall_gpu_broker.Routing.Cooldown.{
  is_in_cooldown, ProviderCooldownState, default_cooldown_policy, record_provider_failure,
}
use pitwall_gpu_broker.Routing.Cooldown.Schedule.{
  waiting, IsPolicy, IsValid, tripped, failure_schedule,
}
use pitwall_gpu_broker.Routing.Cooldown.Probes.{run_probes, run_probes_total, EndsSoon}
use pitwall_gpu_broker.Prelude.{
  Returns, ℕ, ◌+◌, ◌%◌, ◌≡◌, refl, Bool, true, false, none, List, [], ◌∷◌, arith, ◌==◌,
  if◌then◌else◌, ok,
}

abbrev two_failures : ProviderCooldownState
two_failures = record {
  consecutive_failures = 2;
  cooldown_trips = 0;
  cooldown_until = none;
  health_status = "healthy";
}

default-IsPolicy : IsPolicy default_cooldown_policy
default-IsPolicy = record {
  threshold = omega arith;
  initial = omega arith;
  escalated = omega arith;
}

failure_schedule_example :
    record_provider_failure two_failures 7 default_cooldown_policy
    ≡ ok (
        if is_in_cooldown two_failures 7
        then two_failures
        else if (two_failures.consecutive_failures + 1) % default_cooldown_policy.failure_threshold
            == 0
        then tripped default_cooldown_policy two_failures 7
        else waiting two_failures)
failure_schedule_example =
    failure_schedule default_cooldown_policy two_failures 7 default-IsPolicy
      (record { trips = refl; status = refl })

run_probes_total_example :
    let probes : List (Bool × ℕ) = (false, 5) ∷ (false, 8) ∷ (true, 9) ∷ [] in
    Returns
      (run_probes default_cooldown_policy two_failures probes)
      (λ s'. IsValid default_cooldown_policy s' × EndsSoon default_cooldown_policy 9 s')
run_probes_total_example =
    run_probes_total default_cooldown_policy default-IsPolicy two_failures 0
      ((false, 5) ∷ (false, 8) ∷ (true, 9) ∷ []) (record { trips = refl; status = refl }) tt
      (omega arith, (omega arith, (omega arith, tt)))
