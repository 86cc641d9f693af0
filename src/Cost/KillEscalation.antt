-- ===== src/Cost/KillEscalation.antt =====
-- src/pitwall/cost/budget_kill_escalation.py: whether a budget breach fires the kill switch.
use pitwall_gpu_broker.Cost.CircuitBreaker.{CircuitBreakerDecision, block}
use pitwall_gpu_broker.Prelude.{
  ℕ, ◌≤◌, String, ◌≡◌, refl, ◌≢◌, ◌↔◌, ◌⊎◌, inl, inr, Bool, true, false, not, ◌&&◌, ◌||◌, Option,
  none, some, arith, eq_iff, leb, str_eq, if◌then◌else◌, Bool-cases,
}

pub data Mode : Type 0 where
  disabled shadow armed : Mode

pub record KillEscalationPolicy : Type 0 where
  pub require_block : Bool
  pub headroom_floor_usd : ℕ

-- `KillEscalationPolicy()`
abbrev pub default_policy : KillEscalationPolicy
default_policy = record { require_block = true; headroom_floor_usd = 0 }

-- The kinds of `reason`.
pub data Why : Type 0 where
  invalid_mode inert no_escalation budget_breach shadow_no_fire : Why

pub record KillEscalationDecision : Type 0 where
  pub should_fire : Bool
  pub mode : Mode
  pub reason : Why

-- The outcome, and how often `kill_switch.activate` was awaited.
pub record KillEscalationOutcome : Type 0 where
  pub fired : Bool
  pub mode : Mode
  pub reason : Why
  pub activations : ℕ

unfoldable pub normalize_mode : String → Mode × Option Why
normalize_mode mode =
    if str_eq mode "disabled"
    then (disabled, none)
    else if str_eq mode "shadow"
    then (shadow, none)
    else if str_eq mode "armed"
    then (armed, none)
    else (disabled, some invalid_mode)

is_block : CircuitBreakerDecision → Bool
is_block d = elim d.action [ block ↦ true | _ ↦ false ]

escalates : CircuitBreakerDecision → KillEscalationPolicy → Bool
unfolding is_block
escalates decision policy =
    (is_block decision || not policy.require_block)
    && leb decision.headroom_usd policy.headroom_floor_usd

abbrev by_mode : Mode → Bool → KillEscalationDecision
by_mode disabled breach = record { should_fire = false; mode = disabled; reason = inert }
by_mode m breach =
    if breach
    then record { should_fire = true; mode = m; reason = budget_breach }
    else record { should_fire = false; mode = m; reason = no_escalation }

-- `policy or KillEscalationPolicy()`
abbrev pub policy_or_default : Option KillEscalationPolicy → KillEscalationPolicy
policy_or_default none = default_policy
policy_or_default (some policy) = policy

pub evaluate_kill_escalation :
    CircuitBreakerDecision → String → Option KillEscalationPolicy → KillEscalationDecision
unfolding escalates
evaluate_kill_escalation decision mode policy =
    let (canonical, invalid) = normalize_mode mode in
    elim invalid [
      | some why ↦ record { should_fire = false; mode = canonical; reason = why }
      | none ↦ by_mode canonical (escalates decision (policy_or_default policy))
    ]

abbrev fire : KillEscalationDecision → Mode → KillEscalationOutcome
fire decided armed = record { fired = true; mode = armed; reason = decided.reason; activations = 1 }
fire decided m = record { fired = false; mode = m; reason = shadow_no_fire; activations = 0 }

pub maybe_escalate_to_kill :
    CircuitBreakerDecision → String → Option KillEscalationPolicy → KillEscalationOutcome
unfolding evaluate_kill_escalation
maybe_escalate_to_kill decision mode policy =
    let decided = evaluate_kill_escalation decision mode policy in
    if decided.should_fire
    then fire decided decided.mode
    else record { fired = false; mode = decided.mode; reason = decided.reason; activations = 0 }

-- What a text is read as, and whether it is the one that arms the switch.
mode-cases :
    (mode : String)
    → ((normalize_mode mode).0 ≡ armed) × ((normalize_mode mode).1 ≡ none) × (mode ≡ "armed")
      ⊎ ((normalize_mode mode).0 ≢ armed) × (mode ≢ "armed")
unfolding normalize_mode
mode-cases mode = elim (Bool-cases (str_eq mode "armed")) [
  | inl e ↦ let e' = (eq_iff mode "armed").0 e in rw e' (inl (refl, refl, refl))
  | inr e ↦ inr (ground arith, λ e'. cc (e, (eq_iff mode "armed").1 e'))
]

-- The switch is activated, once, exactly in armed mode, on a headroom at or below the floor of the
-- policy in force, and, where that policy asks for it, on a block. Any text that is not a mode
-- leaves it alone.
pub fires_iff :
    (decision : CircuitBreakerDecision) (mode : String) (policy : Option KillEscalationPolicy)
    → let outcome = maybe_escalate_to_kill decision mode policy in
      let p = policy_or_default policy in
      ((outcome.fired ≡ true) ↔ (
        (mode ≡ "armed")
        × (decision.headroom_usd ≤ p.headroom_floor_usd)
        × (p.require_block ≡ true → decision.action ≡ block)))
      × (outcome.activations ≡ (if outcome.fired then 1 else 0))
unfolding maybe_escalate_to_kill is_block
fires_iff decision mode policy = ground (arith, mode-cases mode)
