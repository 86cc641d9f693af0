-- ===== src/Tests/Spending.antt =====
-- Tests of the budget: the breaker, the escalation to the kill switch and the gate
-- (src/pitwall/cost).
use pitwall_gpu_broker.Cost.CircuitBreaker.{
  should_trip, action_for_stress, opened, allow, block, Thresholds, reset, Quotients, Reading,
  evaluate, should_recover, headroom_pct_of, runway_of, budget_exhausted, CircuitBreakerDecision,
}
use pitwall_gpu_broker.Cost.CircuitBreaker.Hysteresis.{decisions, after, no_flapping}
use pitwall_gpu_broker.Cost.KillEscalation.{maybe_escalate_to_kill, policy_or_default, fires_iff}
use pitwall_gpu_broker.Cost.BudgetGate.{
  find_by_key, id_taken, WorkloadRow, BudgetGate, LaunchCall, rejected, per_request_cap,
  current_mtd_spend, snapshot, try_launch_admission,
}
use pitwall_gpu_broker.Cost.BudgetGate.Admission.{key_replay}
use pitwall_gpu_broker.Cost.BudgetGate.Ceiling.{launch_all, spend_ceiling}
use pitwall_gpu_broker.Prelude.{
  ◌*◌, ◌/◌, ◌≤◌, String, ◌≡◌, refl, ◌≢◌, ◌↔◌, true, false, none, some, List, [], ◌∷◌, arith,
  if◌then◌else◌, All, ok, err,
}

abbrev exact : Quotients
exact = record {
  percent = λ headroom budget. headroom * 100 / budget;
  hours = λ headroom rate. headroom / rate;
}

abbrev thresholds : Thresholds
thresholds = record {
  headroom_trip_pct = 10;
  runway_trip_hours = 2;
  recovery_headroom_pct = 25;
  recovery_runway_hours = 6;
  downgrade_headroom_pct = 5;
  cooldown_seconds = 300;
}

abbrev spent : Reading
spent = record { budget_usd = 1000; mtd_spend_usd = 980; now = 50; burn_rate_usd_per_hour = some 5 }

abbrev relieved : Reading
relieved = record {
  budget_usd = 1000;
  mtd_spend_usd = 100;
  now = 400;
  burn_rate_usd_per_hour = none;
}

abbrev early : Reading
early = record relieved { now = 349 }

trips-spent : (evaluate exact thresholds reset spent).0.action ≡ block
unfolding evaluate should_trip should_recover action_for_stress headroom_pct_of runway_of
trips-spent = refl

no_flapping_example :
    let b' = (evaluate exact thresholds reset spent).1 in
    All
      (λ d. (d.action ≢ allow) × (d.state ≡ opened))
      (decisions exact thresholds b' (early ∷ spent ∷ []))
    × (after exact thresholds b' (early ∷ spent ∷ []) ≡ b')
no_flapping_example =
    no_flapping exact thresholds reset spent (early ∷ spent ∷ []) (λ _. refl, λ h. absurd (h refl))
      refl (λ e. cc (e, trips-spent)) (omega arith, (omega arith, tt))

abbrev exhausted : CircuitBreakerDecision
exhausted = record {
  action = block;
  reason = budget_exhausted;
  state = opened;
  headroom_usd = 0;
  headroom_pct = 0;
  runway_hours = none;
}

fires_iff_example :
    let outcome = maybe_escalate_to_kill exhausted "armed" none in
    let p = policy_or_default none in
    ((outcome.fired ≡ true) ↔ (
      (◌≡◌ {A = String} "armed" "armed")
      × (0 ≤ p.headroom_floor_usd)
      × (p.require_block ≡ true → exhausted.action ≡ block)))
    × (outcome.activations ≡ (if outcome.fired then 1 else 0))
fires_iff_example = fires_iff exhausted "armed" none

abbrev gate : BudgetGate
gate = record { monthly_budget_usd = 1000; per_request_max_usd = 300 }

abbrev launch : LaunchCall
launch = record {
  capability_id = "cap";
  provider_id = "prov";
  estimate_usd = 200;
  workload_type = "pod";
  submitted_at = 20;
  idempotency_key = some "k1";
  fresh_id = "w2";
  hook_raises = false;
  month_start = 10;
}

abbrev earlier : WorkloadRow
earlier = record {
  id = "w1";
  capability_id = "cap";
  provider_id = "prov";
  workload_type = "pod";
  state = "completed";
  cost_estimate_usd = some 300;
  cost_actual_usd = some 700;
  submitted_at = 15;
  idempotency_key = none;
}

abbrev table : List WorkloadRow
table = earlier ∷ []

abbrev costly : LaunchCall
costly = record launch {
  estimate_usd = 299;
  fresh_id = "w3";
  submitted_at = 30;
  idempotency_key = none;
}

abbrev huge : LaunchCall
huge = record launch { estimate_usd = 301 }

admitted :
    (try_launch_admission gate launch table).0 ≡ ok (record { workload_id = "w2"; is_new = true })
unfolding try_launch_admission find_by_key id_taken current_mtd_spend snapshot
admitted = refl

refused :
    (try_launch_admission gate huge table).0
    ≡ err (
        rejected per_request_cap (record {
          monthly_budget_usd = 1000;
          per_request_max_usd = 300;
          mtd_spend_usd = 0;
          estimate_usd = 301;
          budget_remaining_usd = 1000;
        }))
unfolding try_launch_admission find_by_key id_taken current_mtd_spend snapshot
refused = refl

key_replay_example :
    let table' = (try_launch_admission gate launch table).1 in
    try_launch_admission gate huge table'
    ≡ (ok (record { workload_id = "w2"; is_new = false }), table')
key_replay_example =
    key_replay gate launch huge "k1" "w2" table {new = true} refl refl (omega arith) admitted

spend_ceiling_example : current_mtd_spend 10 (launch_all gate (launch ∷ costly ∷ []) table) ≤ 1000
spend_ceiling_example =
    spend_ceiling gate (launch ∷ costly ∷ []) 10 table (unfold current_mtd_spend in omega arith)
      (omega arith, (omega arith, tt))
