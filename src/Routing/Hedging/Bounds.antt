-- ===== src/Routing/Hedging/Bounds.antt =====
-- What holds in a race of src/pitwall/routing/hedging.py after every event, and of its results.
use pitwall_gpu_broker.Routing.Hedging.Turns.{IsRacing, IsRight, loop-IsRight, run-IsRight}
use pitwall_gpu_broker.Routing.Hedging.{
  HedgedProviderRequest, Status, Selected, validate_request, loop_test, Event, run_turns,
  first_turn, race_providers,
}
use pitwall_gpu_broker.Prelude.{bound, length-take}
use pitwall_gpu_broker.Prelude.{
  ℕ, ◌≤◌, min, String, ◌≡◌, refl, sym, ap, subst, List, [], ◌∷◌, arith, eq_iff, length, take, ok,
}

-- What validation selects: the first of the providers, and limits within those of the request.
pub record IsSelected (r : HedgedProviderRequest) (sel : Selected) : Type 0 where
  pub first_ones : sel.ids ≡ take (min r.max_attempts (length r.providers)) r.providers
  pub some_id : 1 ≤ length sel.ids
  pub attempts : length sel.ids ≤ r.max_attempts
  pub some_slot : 1 ≤ sel.max_concurrency
  pub slots : sel.max_concurrency ≤ r.max_concurrency

pub selected_lem :
    (r : HedgedProviderRequest) (sel : Selected) → validate_request r ≡ ok sel → IsSelected r sel
unfolding validate_request
selected_lem r sel h =
    let n : 1 ≤ length r.providers = ground arith in
    let a : 1 ≤ r.max_attempts = ground arith in
    let c : 1 ≤ r.max_concurrency = ground arith in
    let ids = take (min r.max_attempts (length r.providers)) r.providers in
    let count = length-take (min r.max_attempts (length r.providers)) r.providers in
    let made : record {
      ids = ids;
      max_concurrency = min r.max_concurrency (min r.max_attempts (length r.providers));
    }
        ≡ sel =
      ground arith in
    let same_ids = ap (λ (x : Selected). x.ids) made in
    let same_slots = ap (λ (x : Selected). x.max_concurrency) made in
    let same_count = ap length same_ids in
    record {
      first_ones = sym same_ids;
      some_id = omega arith;
      attempts = omega arith;
      some_slot = omega arith;
      slots = omega arith;
    }

first-IsRacing : (ids : List String) (cap : ℕ) → 1 ≤ cap → IsRacing ids cap (first_turn ids)
first-IsRacing [] cap pos = record { in_order = refl; bounded = omega arith; accounted = tt }
first-IsRacing (p ∷ ps) cap pos = record {
  in_order = refl;
  bounded = omega arith;
  accounted = (ground (arith, eq_iff p p), tt);
}

-- Whatever happens, and however far the race got: it attempts the first of the providers in their
-- order, at most max_attempts of them and at most max_concurrency at a time; at a value, every other
-- attempt has failed, had ended by then and was not looked at, or was asked to cancel while it ran;
-- the race error means that every selected provider was attempted and failed; and at a cancelled race
-- every attempt has failed, had ended by then, or was asked to cancel while it ran.
pub race-IsRight :
    (r : HedgedProviderRequest) (events : List Event) (status : Status)
    → race_providers r events ≡ ok status
    → (sel : Selected) × (validate_request r ≡ ok sel)
      × IsSelected r sel
      × IsRight sel.ids sel.max_concurrency status
unfolding race_providers
race-IsRight r events status h =
    let (sel, valid, ran) = bound (validate_request r) _ h in
    let chosen = selected_lem r sel valid in
    let ended : run_turns sel.max_concurrency events
          (loop_test (first_turn sel.ids) (first_turn sel.ids).active)
        ≡ status =
      cc ran in
    let started =
      loop-IsRight sel.ids sel.max_concurrency (first_turn sel.ids) (first_turn sel.ids).active refl
        (none_first sel.ids) (first-IsRacing sel.ids sel.max_concurrency chosen.some_slot) in
    (
      sel,
      valid,
      chosen,
      subst (IsRight sel.ids sel.max_concurrency) ended
          (run-IsRight sel.ids sel.max_concurrency chosen.some_slot events _ started),
    )
  where
    none_first : (ids : List String) → (first_turn ids).active ≡ [] → (first_turn ids).waiting ≡ []
    none_first [] e = refl
    none_first (p ∷ ps) e = cc e
