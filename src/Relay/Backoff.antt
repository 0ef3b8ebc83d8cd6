-- ===== src/Relay/Backoff.antt =====
-- relay/relay.go: the delay before the next attempt.
use native.Mathlib.Omega.{pow_step}
use hmntsk.Prelude.{◌+◌, ◌*◌, ◌^◌, ◌≤◌, ℕ, zero, suc, pos, arith, ◌≡◌}
use hmntsk.Relay.{backoff_delay}

doubling : (b k : ℕ) → b * 2 ^ suc k ≡ b * 2 ^ k + b * 2 ^ k
doubling b k = rw (pow_step 2 k) (omega arith)

at_least : (b k : ℕ) → b ≤ b * 2 ^ k
at_least b zero = omega arith
at_least b (suc k) = omega (arith, at_least b k, doubling b k)

-- The delay is never shorter than the base, which is within the ceiling, nor longer than the
-- ceiling; it does not fall from one attempt to the next, and it is twice the one before where
-- that stays within the ceiling.
pub backoff_delay-bounds :
    (b c k : ℕ)
    → b ≤ c
    → (b ≤ backoff_delay b c (pos k))
      × (backoff_delay b c (pos k) ≤ c)
      × (backoff_delay b c (pos k) ≤ backoff_delay b c (pos (suc k)))
      × (2 * backoff_delay b c (pos k) ≤ c
          → backoff_delay b c (pos (suc k)) ≡ 2 * backoff_delay b c (pos k))
unfolding backoff_delay
backoff_delay-bounds b c k h = ground (arith, at_least b k, doubling b k)
