-- ===== src/Routing/Cooldown/Probes.antt =====
-- Sequences of health probes through src/pitwall/routing/cooldown.py.
use native.Mathlib.Nat.{mod_self}
use pitwall_gpu_broker.Routing.Cooldown.Schedule.{
  div-suc_same, unhealthy_text, failure_schedule, IsValid, IsPolicy,
}
use pitwall_gpu_broker.Routing.Cooldown.{
  record_provider_failure, is_in_cooldown, CooldownError, apply_probe_result, ProviderCooldownState,
  CooldownPolicy,
}
use pitwall_gpu_broker.Prelude.{
  Returns, ℕ, ◌+◌, ◌%◌, ◌≤◌, ◌<◌, ◌≡◌, refl, ◌∙◌, inl, inr, Bool, true, false, none, some, List, [],
  ◌∷◌, ◌++◌, arith, ◌==◌, Bool-cases, length, Result, ok, Result-cases, ◌>>=◌,
}

-- Probe results with the instants at which they were observed.
pub run_probes :
    CooldownPolicy
    → ProviderCooldownState
    → List (Bool × ℕ)
    → Result CooldownError ProviderCooldownState
run_probes p s [] = ok s
run_probes p s ((passed, now) ∷ rest) = do
  s' ← apply_probe_result s passed now p
  run_probes p s' rest

-- The instants do not go back, from a start on; the last of them.
abbrev pub InOrder : ℕ → List (Bool × ℕ) → Type 0
InOrder t [] = Unit
InOrder t ((_, now) ∷ rest) = (t ≤ now) × InOrder now rest

abbrev pub last_instant : ℕ → List (Bool × ℕ) → ℕ
last_instant t [] = t
last_instant t ((_, now) ∷ rest) = last_instant now rest

-- A window ends within the escalated cooldown from the instant.
abbrev pub EndsSoon : CooldownPolicy → ℕ → ProviderCooldownState → Type 0
EndsSoon p now s = elim s.cooldown_until [
  | none ↦ Unit
  | some until ↦ until ≤ now + p.escalated_cooldown
]

module _ (p : CooldownPolicy) (hp : IsPolicy p) where
  probe-keeps :
      (s : ProviderCooldownState) (passed : Bool) (t now : ℕ)
      → IsValid p s
      → EndsSoon p t s
      → t ≤ now
      → Returns (apply_probe_result s passed now p) (λ s'. IsValid p s' × EndsSoon p now s')
  unfolding apply_probe_result
  probe-keeps s true t now h soon le = (record { trips = omega arith; status = refl }, tt)
  probe-keeps s false t now h soon le =
      rw (failure_schedule p s now hp h) (elim (Bool-cases (is_in_cooldown s now)) [
        | inl inside ↦ rw inside (h, ground arith)
        | inr outside ↦
            elim (Bool-cases ((s.consecutive_failures + 1) % p.failure_threshold == 0)) [
              | inl due ↦
                  rw (outside, due)
                    (record { trips = refl; status = unhealthy_text }, ground (arith, hp.escalated))
              | inr wait ↦
                  let same =
                    div-suc_same s.consecutive_failures p.failure_threshold hp.threshold
                      (ground arith) in
                  rw (outside, wait) (record { trips = ground arith; status = h.status }, tt)
            ]
      ])

  -- Under an accepted policy, from a valid state of which the window ends within the escalated
  -- cooldown, every sequence of probes in the order of time goes through without an error; the
  -- trips are the whole multiples of the threshold in the run of failures, and no window outlasts
  -- the last probe by more than the escalated cooldown.
  pub run_probes_total :
      (s : ProviderCooldownState) (t : ℕ) (probes : List (Bool × ℕ))
      → IsValid p s
      → EndsSoon p t s
      → InOrder t probes
      → Returns (run_probes p s probes) (λ s'. IsValid p s' × EndsSoon p (last_instant t probes) s')
  unfolding run_probes
  run_probes_total s t [] h soon order = (h, soon)
  run_probes_total s t ((passed, now) ∷ rest) h soon order =
      elim (Result-cases (apply_probe_result s passed now p)) [
        | inl (s', e) ↦
            let kept : IsValid p s' × EndsSoon p now s' =
              rw e at (probe-keeps s passed t now h soon order.0) in
            rw e (run_probes_total s' now rest kept.0 kept.1 order.1)
        | inr (x, e) ↦
            let bad : ⊥ = rw e at (probe-keeps s passed t now h soon order.0) in absurd bad
      ]

-- The failures in a row that a state with no failures yet counts, each at its instant.
abbrev pub failures_at : List ℕ → List (Bool × ℕ)
failures_at [] = []
failures_at (now ∷ rest) = (false, now) ∷ failures_at rest

small_mod : (f t : ℕ) → f + 1 < t → (f + 1) % t ≡ f + 1
small_mod f t h = grind arith

module _ (p : CooldownPolicy) (hp : IsPolicy p) where
  one_up :
      (s : ProviderCooldownState) (now : ℕ)
      → IsValid p s
      → s.cooldown_until ≡ none
      → s.consecutive_failures + 1 < p.failure_threshold
      → record_provider_failure s now p
        ≡ ok (record s { consecutive_failures = s.consecutive_failures + 1 })
  unfolding is_in_cooldown
  one_up s now h closed room =
      let small = small_mod s.consecutive_failures p.failure_threshold room in
      failure_schedule p s now hp h ∙ (ground arith)

  counted-IsValid :
      (s : ProviderCooldownState)
      → IsValid p s
      → s.consecutive_failures + 1 < p.failure_threshold
      → IsValid p (record s { consecutive_failures = s.consecutive_failures + 1 })
  counted-IsValid s h room =
      let small = small_mod s.consecutive_failures p.failure_threshold room in
      let same =
        div-suc_same s.consecutive_failures p.failure_threshold hp.threshold (omega arith) in
      record { trips = ground arith; status = h.status }

  count_up :
      (s : ProviderCooldownState) (before : List ℕ)
      → IsValid p s
      → s.cooldown_until ≡ none
      → s.consecutive_failures + length before < p.failure_threshold
      → run_probes p s (failures_at before)
        ≡ ok (record s { consecutive_failures = s.consecutive_failures + length before })
  unfolding run_probes apply_probe_result
  count_up s [] h closed room = ground arith
  count_up s (now ∷ before) h closed room =
      let s' : ProviderCooldownState = record s {
        consecutive_failures = s.consecutive_failures + 1;
      } in
      let h' : IsValid p s' = counted-IsValid s h (omega arith) in
      rw (one_up s now h closed (omega arith))
        (count_up s' before h' closed (omega arith) ∙ (ground arith))

  last_failure :
      (s : ProviderCooldownState) (before : List ℕ) (now : ℕ)
      → IsValid p s
      → s.cooldown_until ≡ none
      → s.consecutive_failures + length before + 1 ≡ p.failure_threshold
      → Returns (run_probes p s (failures_at (before ++ now ∷ []))) (λ s'.
        (s'.cooldown_until ≡ some (now + p.initial_cooldown)) × (s'.health_status ≡ "unhealthy"))
  unfolding run_probes apply_probe_result
  last_failure s [] now h closed room =
      let full : s.consecutive_failures + 1 ≡ p.failure_threshold = omega arith in
      let due : (s.consecutive_failures + 1) % p.failure_threshold ≡ 0 =
        rw full (mod_self p.failure_threshold) in
      let out : is_in_cooldown s now ≡ false = unfold is_in_cooldown in ground arith in
      rw (failure_schedule p s now hp h, out) (ground arith)
  last_failure s (t ∷ before) now h closed room =
      let s' : ProviderCooldownState = record s {
        consecutive_failures = s.consecutive_failures + 1;
      } in
      let h' : IsValid p s' = counted-IsValid s h (omega arith) in
      rw (one_up s t h closed (omega arith)) (last_failure s' before now h' closed (omega arith))

  -- Under an accepted policy, from a valid state without failures and without a window, fewer
  -- failures in a row than the threshold start no cooldown, whenever they are observed; the
  -- failure that reaches the threshold starts the initial one at its instant.
  threshold_exact :
      (s : ProviderCooldownState) (before : List ℕ) (now : ℕ)
      → IsValid p s
      → s.cooldown_until ≡ none
      → s.consecutive_failures ≡ 0
      → length before + 1 ≡ p.failure_threshold
      → (run_probes p s (failures_at before)
          ≡ ok (record s { consecutive_failures = length before }))
        × Returns (run_probes p s (failures_at (before ++ now ∷ []))) (λ s'.
          (s'.cooldown_until ≡ some (now + p.initial_cooldown)) × (s'.health_status ≡ "unhealthy"))
  threshold_exact s before now h closed fresh room = (
    count_up s before h closed (omega arith) ∙ (ground arith),
    last_failure s before now h closed (omega arith),
  )
