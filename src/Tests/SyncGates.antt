-- ===== src/Tests/SyncGates.antt =====
-- Tests of the gate for synchronous inference (src/pitwall/cost/sync_gate.py).
use pitwall_gpu_broker.Prelude.Text.{take_chars}
use pitwall_gpu_broker.Cost.BudgetGate.{
  BudgetGate, try_launch_admission, current_mtd_spend, id_taken, find_by_key,
}
use pitwall_gpu_broker.Cost.SyncGate.{
  SyncCall, SyncState, executed, replayed, gate_sync_inference, reserve_idempotency_key,
}
use pitwall_gpu_broker.Cost.SyncGate.Reuse.{
  sync_all, NeverPending, NoMismatch, mismatch_never_raised,
}
use pitwall_gpu_broker.Prelude.{◌≡◌, refl, ap, false, some, [], ◌∷◌, eq_iff, All, ok}

abbrev gate : BudgetGate
gate = record { monthly_budget_usd = 100; per_request_max_usd = 50 }

abbrev first : SyncCall
first = record {
  launch = record {
    capability_id = "cap";
    provider_id = "prov";
    estimate_usd = 20;
    workload_type = "inference";
    submitted_at = 5;
    idempotency_key = some "k";
    fresh_id = "wkl_01A";
    hook_raises = false;
    month_start = 1;
  };
  payload = "{\"prompt\":\"a\"}";
  input_payload = "{\"prompt\":\"a\"}";
}

-- The same key with another body.
abbrev second : SyncCall
second = record first {
  launch = record first.launch { fresh_id = "wkl_01B" };
  payload = "{\"prompt\":\"b\"}";
  input_payload = "{\"prompt\":\"b\"}";
}

abbrev empty : SyncState
empty = record { keys = []; inputs = []; table = [] }

answers :
    sync_all (λ body. body) gate (first ∷ second ∷ []) empty
    ≡ ok (executed "wkl_01A") ∷ ok (replayed "wkl_01A") ∷ []
unfolding sync_all gate_sync_inference reserve_idempotency_key try_launch_admission
    current_mtd_spend id_taken find_by_key
answers = refl

first_never : NeverPending first
first_never k e = let apart = (eq_iff "wkl_0" "wkl_p").1 (ap (take_chars 5) e) in cc apart

second_never : NeverPending second
second_never k e = let apart = (eq_iff "wkl_0" "wkl_p").1 (ap (take_chars 5) e) in cc apart

mismatch_never_raised_example :
    All NoMismatch (sync_all (λ body. body) gate (first ∷ second ∷ []) empty)
mismatch_never_raised_example =
    mismatch_never_raised (λ body. body) gate (first ∷ second ∷ [])
      (first_never, (second_never, tt))
