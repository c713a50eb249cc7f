-- ===== src/Outbox/Backoff.antt =====
-- The delay before a retry.
use cobo_iam_services.Base.{
  ℕ, zero, suc, ◌+◌, ◌*◌, ◌/◌, ◌-◌, ◌^◌, ◌≤◌, ◌<◌, ◌≡◌, arith, ltb, if◌then◌else◌,
}
use cobo_iam_services.Outbox.{clamped, backoff, backoff_with_jitter, second}

clamped-low : (n : ℕ) → n ≤ 1 → clamped n ≡ 1
unfolding clamped
clamped-low n le = ground (arith, le)

clamped-high : (n : ℕ) → 6 ≤ n → clamped n ≡ 6
unfolding clamped
clamped-high n le = ground (arith, le)

clamped_bounds : (n : ℕ) → (1 ≤ clamped n) × (clamped n ≤ 6)
unfolding clamped
clamped_bounds n = ground arith

power_bounds :
    (k : ℕ) → 1 ≤ k → k ≤ 6 → (second ≤ 2 ^ (k - 1) * second) × (2 ^ (k - 1) * second ≤ 32 * second)
power_bounds zero l u = (omega (arith, l), omega (arith, l))
power_bounds (suc zero) l u = (omega arith, omega arith)
power_bounds (suc (suc zero)) l u = (omega arith, omega arith)
power_bounds (suc (suc (suc zero))) l u = (omega arith, omega arith)
power_bounds (suc (suc (suc (suc zero)))) l u = (omega arith, omega arith)
power_bounds (suc (suc (suc (suc (suc zero))))) l u = (omega arith, omega arith)
power_bounds (suc (suc (suc (suc (suc (suc zero)))))) l u = (omega arith, omega arith)
power_bounds (suc (suc (suc (suc (suc (suc (suc k))))))) l u = (omega (arith, u), omega (arith, u))

pub backoff_bounds : (n : ℕ) → (second ≤ backoff n) × (backoff n ≤ 32 * second)
unfolding backoff
backoff_bounds n = power_bounds (clamped n) (clamped_bounds n).0 (clamped_bounds n).1

-- A delay with jitter is at least the delay without it and at most a quarter longer, so between one
-- second and forty, for each source of randomness that draws below its bound.
pub backoff_with_jitter_bounds :
    (draw : ℕ → ℕ) (n : ℕ)
    → ((m : ℕ) → 0 < m → draw m < m)
    → (backoff n ≤ backoff_with_jitter draw n)
      × (backoff_with_jitter draw n ≤ backoff n + backoff n / 4)
      × (second ≤ backoff_with_jitter draw n)
      × (backoff_with_jitter draw n ≤ 40 * second)
unfolding backoff_with_jitter
backoff_with_jitter_bounds draw n below =
    let (low, high) = backoff_bounds n in
    let drawn = below ((if ltb 1 (backoff n / 4) then backoff n / 4 else 1) + 1) (omega arith) in
    ground (arith, low, high, drawn)
