-- ===== src/RateLimits/Algorithm/Capacity.antt =====
-- How src/pitwall/rate_limits/algorithm.py recovers the capacity after a 429.
use pitwall_gpu_broker.RateLimits.Algorithm.{capacity_after_429, halved_capacity}
use pitwall_gpu_broker.Prelude.{Returns}
use pitwall_gpu_broker.Prelude.{ℕ, ◌+◌, ◌-◌, ◌*◌, ◌/◌, ◌≤◌, ◌<◌, max, ◌≡◌, ◌≢◌, some, arith}

-- The part of a gap that has come back is at most the gap, and does not shrink.
part_le : (gap elapsed window : ℕ) → elapsed < window → gap * elapsed / window ≤ gap
part_le gap elapsed window h = grind arith

part_mono : (gap e e' window : ℕ) → 0 < window → e ≤ e' → gap * e / window ≤ gap * e' / window
part_mono gap e e' window p h = grind arith

-- After a 429, for a positive target and window, the capacity is at least half the target, rounded
-- down, and at least one, and exactly that up to the instant of the 429; it is never above the
-- target, is the target again once the window has passed, and does not shrink as time passes.
recovery_bounds :
    (target since now later window : ℕ)
    → 1 ≤ target
    → 1 ≤ window
    → now ≤ later
    → Returns (capacity_after_429 target (some since) now window) (λ c.
      (max 1 (target / 2) ≤ c)
      × (c ≤ target)
      × (since + window ≤ now → c ≡ target)
      × (now ≤ since → since + window ≢ now → c ≡ max 1 (target / 2))
      × Returns (capacity_after_429 target (some since) later window) (λ c'. c ≤ c'))
unfolding capacity_after_429 halved_capacity
recovery_bounds target since now later window ht hw le = ground (
  arith,
  part_le (target - max 1 (target / 2)) (now - since) window,
  part_le (target - max 1 (target / 2)) (later - since) window,
  part_mono (target - max 1 (target / 2)) (now - since) (later - since) window,
)
