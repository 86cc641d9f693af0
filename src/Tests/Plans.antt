-- ===== src/Tests/Plans.antt =====
-- Tests of the route planner (src/pitwall/routing/planner.py).
use mathlib.Core.List.Permᴰ
use pitwall_gpu_broker.Routing.Constraints.{RoutingRequest, ProviderFacts, hard_constraint_reasons}
use pitwall_gpu_broker.Prelude.Sort.{codes_leb}
use pitwall_gpu_broker.Routing.Constraints.Met.{IsMet, reasons_iff_IsMet, plan-IsMet}
use pitwall_gpu_broker.Routing.Planner.Chain.Order.{plan_order_free}
use pitwall_gpu_broker.Routing.Planner.{
  CapacityKey, Provider, Eliminated, region_mismatch, cuda_mismatch, payload_too_large,
}
use pitwall_gpu_broker.Routing.Planner.Chain.{plan_route}
use pitwall_gpu_broker.Routing.Planner.Chain.Stages.{IsRoutable}
use pitwall_gpu_broker.Routing.Planner.Chain.Plan.{plan_sound, plan_complete}
use pitwall_gpu_broker.Routing.Planner.Chain.Distinct.{attempt_id, plan-Distinct}
use pitwall_gpu_broker.Prelude.{Mem, Returns, Distinct}
use pitwall_gpu_broker.Prelude.{
  ℕ, ◌≤◌, String, ◌≡◌, refl, ◌≢◌, ◌↔◌, if◌then◌else◌, Bool, true, false, Option, none, some, List,
  [], ◌∷◌, arith, eq_iff, str_eq, length, All,
}

abbrev key : CapacityKey
key = record { datacenter = "eu-1"; gpu_name = "L40S"; cloud_type = "SECURE"; gpu_count = some 1 }

abbrev serverless : Provider
serverless = record {
  id = "p1";
  name = "serverless";
  enabled = some true;
  consecutive_failures = 0;
  cooldown_trips = 0;
  cooldown_until = none;
  health_status = "healthy";
  is_pod_lease = false;
  priority = 1;
  score = 7;
  fallback_for = [];
  explicit_fallback_chain = "p2" ∷ "p1" ∷ "p2" ∷ [];
  capacity_keys = [];
}

abbrev pod : Provider
pod = record serverless {
  id = "p2";
  name = "pod";
  is_pod_lease = true;
  score = 5;
  explicit_fallback_chain = "p1" ∷ [];
  capacity_keys = key ∷ [];
}

abbrev cooling : Provider
cooling = record serverless { id = "p3"; name = "cooling"; cooldown_until = some 100; score = 9 }

abbrev providers : List Provider
providers = cooling ∷ serverless ∷ pod ∷ []

abbrev unconstrained : Provider → List Eliminated
unconstrained p = []

abbrev cache : CapacityKey → Option Bool
cache k = some true

differ : (s t : String) → str_eq s t ≡ false → s ≢ t
differ s t h e = cc (h, (eq_iff s t).1 e)

plan_sound_example : Returns (plan_route unconstrained cache 50 3 2 providers) (λ plan.
    All (λ a. Mem a.provider providers × IsRoutable unconstrained cache 50 a.provider) plan.attempts
    × (length plan.attempts ≤ 3))
plan_sound_example = plan_sound unconstrained cache 50 3 2 providers (omega arith)

plan_complete_example :
    Returns
      (plan_route unconstrained cache 50 3 2 providers)
      (λ plan. (plan.attempts ≡ []) ↔ All (λ p. ¬ IsRoutable unconstrained cache 50 p) providers)
plan_complete_example = plan_complete unconstrained cache 50 3 2 providers (omega arith)

plan-Distinct_example :
    Returns
      (plan_route unconstrained cache 50 3 2 providers)
      (λ plan. Distinct attempt_id plan.attempts)
plan-Distinct_example =
    plan-Distinct unconstrained cache 50 3 2 providers (omega arith) (
      (differ "p1" "p3" refl, (differ "p2" "p3" refl, tt)),
      ((differ "p2" "p1" refl, tt), (tt, tt)),
    )

plan_order_free_example :
    Returns (plan_route unconstrained cache 50 3 2 (serverless ∷ pod ∷ [])) (λ plan.
      Returns (plan_route unconstrained cache 50 3 2 (pod ∷ serverless ∷ [])) (λ plan'.
        (plan.attempts ≡ plan'.attempts)
        × (plan.ranked_candidates ≡ plan'.ranked_candidates)
        × (plan.capacity_decisions ≡ plan'.capacity_decisions)))
plan_order_free_example =
    plan_order_free unconstrained cache 50 3 2 (serverless ∷ pod ∷ []) (pod ∷ serverless ∷ [])
      (Permᴰ.swap refl refl) ((differ "p2" "p1" refl, tt), (tt, tt)) (omega arith)

abbrev version_of : String → Option (List ℕ)
version_of s =
    if str_eq s "12.4"
    then some (12 ∷ 4 ∷ [])
    else if str_eq s "12.1"
    then some (12 ∷ 1 ∷ [])
    else none

abbrev names_match : String → String → Bool
names_match a b = false

abbrev request : RoutingRequest
request = record {
  capability_name = "chat";
  payload_bytes = some 31457280;
  required_gpu_class = some "L40S";
  required_region = some "eu-1";
  required_volume_id = none;
  capability_id = none;
  required_cuda_min = some "12.1";
  required_cuda_version = none;
}

abbrev near : ProviderFacts
near = record {
  capability_id = some "cap-1";
  capability_name = some "chat";
  region = some "eu-1";
  volume_id = none;
  cuda_versions = "12.4" ∷ [];
  gpu_classes = "A40" ∷ "L40S" ∷ [];
  max_payload_mb = none;
  is_serverless_lb = true;
}

abbrev far : ProviderFacts
far = record near { region = none; cuda_versions = []; max_payload_mb = some 29999999 }

near_passes : hard_constraint_reasons version_of names_match request none none near ≡ []
unfolding hard_constraint_reasons codes_leb
near_passes = refl

far_fails :
    hard_constraint_reasons version_of names_match request none none far
    ≡ region_mismatch ∷ cuda_mismatch ∷ payload_too_large ∷ []
unfolding hard_constraint_reasons codes_leb
far_fails = refl

reasons_iff_IsMet_example :
    (hard_constraint_reasons version_of names_match request none none near ≡ [])
    ↔ IsMet version_of names_match request none none near
reasons_iff_IsMet_example = reasons_iff_IsMet version_of names_match request none none near

abbrev facts : Provider → ProviderFacts
facts p = if p.is_pod_lease then far else near

plan-IsMet_example :
    Returns
      (plan_route
        (λ p. hard_constraint_reasons version_of names_match request none none (facts p))
        cache
        50
        3
        2
        providers)
      (λ plan.
        All (λ a. IsMet version_of names_match request none none (facts a.provider)) plan.attempts)
plan-IsMet_example =
    plan-IsMet version_of names_match request none none facts cache 50 3 2 providers (omega arith)
