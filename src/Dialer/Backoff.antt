-- ===== src/Dialer/Backoff.antt =====
-- The delay before a retry, without its jitter: `compute_retry_time` of samod-core/src/actors/hub/dialer.rs.
use native.Mathlib.Nat.{mul-le-mul_left}
use samod.Prelude.{ℕ, suc, ◌-◌, ◌*◌, ◌^◌, ◌≤◌, min, ◌≡◌, arith, leb, Bool-cases, leb→le, inl, inr}
use samod.Dialer.{BackoffConfig, base_delay, capped_delay, duration_max, u32_max}

min_mono : (a b c : ℕ) → a ≤ b → min a c ≤ min b c
min_mono a b c h = omega arith

pow_capped : (n : ℕ) → 2 ^ n ≤ u32_max → min (2 ^ (suc n - 1)) u32_max ≡ 2 ^ n
pow_capped n h = let e : suc n - 1 ≡ n = omega arith in rw e (omega arith)

pow_saturated : (n : ℕ) → u32_max ≤ 2 ^ n → min (2 ^ (suc n - 1)) u32_max ≡ u32_max
pow_saturated n h = let e : suc n - 1 ≡ n = omega arith in rw e (omega arith)

-- If the maximal delay is a `Duration` and no more than initial_delay * (2^32 - 1), the delay of the
-- saturating arithmetic before retry n + 1 is min(initial_delay * 2^n, max_delay), for every n.
pub capped_delay_closed :
    (config : BackoffConfig) (n : ℕ)
    → config.max_delay ≤ duration_max
    → config.max_delay ≤ config.initial_delay * u32_max
    → capped_delay config (suc n) ≡ min (config.initial_delay * 2 ^ n) config.max_delay
unfolding capped_delay base_delay
capped_delay_closed config n fits reach = elim (Bool-cases (leb (2 ^ n) u32_max)) [
  | inl h ↦
      let small : 2 ^ n ≤ u32_max = leb→le (2 ^ n) u32_max h in
      let e : min (2 ^ (suc n - 1)) u32_max ≡ 2 ^ n = pow_capped n small in rw e (omega arith)
  | inr h ↦
      let big : u32_max ≤ 2 ^ n = ground arith in
      let e : min (2 ^ (suc n - 1)) u32_max ≡ u32_max = pow_saturated n big in
      rw e (omega (arith, mul-le-mul_left config.initial_delay big))
]
