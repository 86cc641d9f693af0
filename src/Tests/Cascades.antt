-- ===== src/Tests/Cascades.antt =====
-- Tests of the cascade (src/pitwall/routing/cascade.py).
use pitwall_gpu_broker.Routing.Cascade.{
  CascadeGateDecision, CascadeTier, CascadeAttempt, CascadeProviderRequest, CascadeProviderResult,
  exhausted, route_with_cascade, validate_request, run_tiers, attempt_tier, attempt_cost,
  validate_provider_ids, max_attempts_of, validate_tier_order, total_cost,
}
use pitwall_gpu_broker.Routing.Cascade.Run.{Escalates, Succeeds}
use pitwall_gpu_broker.Routing.Cascade.Outcomes.{cascade_iff_run}
use pitwall_gpu_broker.Routing.Cascade.Winner.{WouldPass, winner_is_cheapest}
use pitwall_gpu_broker.Prelude.{contains, Mem}
use pitwall_gpu_broker.Prelude.{
  ℕ, ◌≤◌, String, ◌≡◌, refl, ◌↔◌, true, false, not, none, some, List, [], ◌∷◌, str_eq, length, All,
  ok, err,
}

abbrev gate : CascadeGateDecision
gate = record { passed = false; confidence = none; reason = some "too short" }

abbrev request : CascadeProviderRequest String ℕ String
request = record {
  tiers =
      record { provider = "small"; estimated_cost_usd = 2 }
      ∷ record { provider = "medium"; estimated_cost_usd = 5 }
      ∷ record { provider = "large"; estimated_cost_usd = 9 }
      ∷ [];
  call_provider = λ p. ok 7;
  quality_gate = λ p v. ok (record gate { passed = not (str_eq p "small") });
  max_attempts = some 2;
  provider_id = λ p. p;
  cost_of_result = none;
}

abbrev first_attempt : CascadeAttempt String ℕ
first_attempt = record {
  provider_id = "small";
  provider = "small";
  attempt = 1;
  value = 7;
  gate = gate;
  cost_usd = 2;
}

abbrev second_attempt : CascadeAttempt String ℕ
second_attempt = record {
  provider_id = "medium";
  provider = "medium";
  attempt = 2;
  value = 7;
  gate = record gate { passed = true };
  cost_usd = 5;
}

abbrev answer : CascadeProviderResult String ℕ
answer = record {
  value = 7;
  provider = "medium";
  provider_id = "medium";
  attempts = first_attempt ∷ second_attempt ∷ [];
  total_cost_usd = 7;
}

cascade-runs : route_with_cascade request ≡ ok answer
unfolding route_with_cascade validate_request run_tiers attempt_tier attempt_cost
    validate_provider_ids max_attempts_of validate_tier_order total_cost contains
cascade-runs = refl

cascade_iff_run_example :
    ((route_with_cascade request ≡ ok answer) ↔ (
      (selected : List (CascadeTier String)) × (validate_request request ≡ ok selected)
      × Succeeds request 1 selected [] answer))
    × ((route_with_cascade request ≡ err (exhausted (first_attempt ∷ []) 2)) ↔ (
        (selected : List (CascadeTier String)) × (validate_request request ≡ ok selected)
        × Escalates request 1 selected (first_attempt ∷ []) []
        × (2 ≡ total_cost (first_attempt ∷ []))))
cascade_iff_run_example = cascade_iff_run request answer (first_attempt ∷ []) 2

winner_is_cheapest_example :
    (selected : List (CascadeTier String)) × (w : CascadeTier String) × (validate_request request
      ≡ ok selected)
    × Mem w selected
    × (w.provider ≡ answer.provider)
    × All (λ t. WouldPass request t → w.estimated_cost_usd ≤ t.estimated_cost_usd) selected
    × (length answer.attempts ≤ length request.tiers)
    × ((m : ℕ) → request.max_attempts ≡ some m → length answer.attempts ≤ m)
winner_is_cheapest_example = winner_is_cheapest request answer cascade-runs
