-- ===== src/Routing/Cooldown/Schedule.antt =====
-- When src/pitwall/routing/cooldown.py starts a cooldown, for how long, and what ends it.
use pitwall_gpu_broker.Routing.Cooldown.{
  record_provider_failure, validate_policy, is_in_cooldown, count_failure, ProviderCooldownState,
  CooldownPolicy,
}
use pitwall_gpu_broker.Prelude.{
  ℕ, ◌+◌, ◌/◌, ◌%◌, ◌≤◌, ◌<◌, ◌≡◌, refl, ◌∙◌, ◌≢◌, ◌↔◌, inl, inr, false, none, some, arith, ◌==◌,
  str_eq, if◌then◌else◌, Bool-cases, ok,
}

-- What `_validate_policy` accepts.
pub record IsPolicy (p : CooldownPolicy) : Type 0 where
  pub threshold : 1 ≤ p.failure_threshold
  pub initial : 1 ≤ p.initial_cooldown
  pub escalated : p.initial_cooldown ≤ p.escalated_cooldown

-- The trips are those that the failures in a row have caused, and the status is a text.
pub record IsValid (p : CooldownPolicy) (s : ProviderCooldownState) : Type 0 where
  pub trips : s.cooldown_trips ≡ s.consecutive_failures / p.failure_threshold
  pub status : str_eq s.health_status "" ≡ false

div-suc : (f t : ℕ) → 1 ≤ t → (f + 1) % t ≡ 0 → f / t < (f + 1) / t
div-suc f t h e = grind (arith)

pub div-suc_same : (f t : ℕ) → 1 ≤ t → (f + 1) % t ≢ 0 → (f + 1) / t ≡ f / t
div-suc_same f t h e = grind (arith)

div_one : (f t : ℕ) → 1 ≤ t → (f + 1) % t ≡ 0 → ((f + 1) / t ≡ 1) ↔ (f + 1 ≡ t)
div_one f t h e = (λ q. grind arith, λ q. grind arith)

-- The cooldown that starts with the given number of failures in a row.
abbrev pub duration : CooldownPolicy → ℕ → ℕ
duration p failures =
    if failures == p.failure_threshold then p.initial_cooldown else p.escalated_cooldown

-- The failure that starts a cooldown, and the one that only counts.
abbrev pub tripped : CooldownPolicy → ProviderCooldownState → ℕ → ProviderCooldownState
tripped p s now = record {
  consecutive_failures = s.consecutive_failures + 1;
  cooldown_trips = (s.consecutive_failures + 1) / p.failure_threshold;
  cooldown_until = some (now + duration p (s.consecutive_failures + 1));
  health_status = "unhealthy";
}

abbrev pub waiting : ProviderCooldownState → ProviderCooldownState
waiting s = record s { consecutive_failures = s.consecutive_failures + 1; cooldown_until = none }

policy-ok : (p : CooldownPolicy) → IsPolicy p → validate_policy p ≡ ok tt
unfolding validate_policy
policy-ok p h = ground arith

pub unhealthy_text : str_eq "unhealthy" "" ≡ false
unhealthy_text = refl

module _ (p : CooldownPolicy) (s : ProviderCooldownState) (now : ℕ) (hp : IsPolicy p)
    (h : IsValid p s) where
  count-tripped :
      (s.consecutive_failures + 1) % p.failure_threshold ≡ 0
      → count_failure s now p ≡ ok (tripped p s now)
  unfolding count_failure
  count-tripped e = ground (
    arith,
    div-suc s.consecutive_failures p.failure_threshold hp.threshold e,
    div_one s.consecutive_failures p.failure_threshold hp.threshold e,
    unhealthy_text,
  )

  count-waiting :
      (s.consecutive_failures + 1) % p.failure_threshold ≢ 0
      → is_in_cooldown s now ≡ false
      → count_failure s now p ≡ ok (waiting s)
  unfolding count_failure is_in_cooldown
  count-waiting e out =
      ground (arith, div-suc_same s.consecutive_failures p.failure_threshold hp.threshold e)

  failure_step :
      record_provider_failure s now p
      ≡ (if is_in_cooldown s now then ok s else count_failure s now p)
  unfolding record_provider_failure
  failure_step = ground arith

  -- Under an accepted policy and from a valid state, a failure inside a window changes nothing.
  -- Outside it counts, and every failure whose number in a row is a multiple of the threshold
  -- starts a window: the initial one at the threshold, the escalated one later.
  pub failure_schedule :
      record_provider_failure s now p
      ≡ ok (
          if is_in_cooldown s now
          then s
          else if (s.consecutive_failures + 1) % p.failure_threshold == 0
          then tripped p s now
          else waiting s)
  failure_schedule = failure_step ∙ (elim (Bool-cases (is_in_cooldown s now)) [
    | inl inside ↦ rw inside refl
    | inr outside ↦ elim (Bool-cases ((s.consecutive_failures + 1) % p.failure_threshold == 0)) [
      | inl due ↦ rw (outside, due) (count-tripped (ground arith))
      | inr wait ↦ rw (outside, wait) (count-waiting (ground arith) outside)
    ]
  ])
