-- ===== src/Scheduler/Delays.antt =====
-- How long the backoff of internal/scheduler/backoff.go is.
use native.Mathlib.Nat.{le-div_iff_mul-le, div-lt_iff_lt-mul, mul-le-mul_left, mul-le-mul_right}
use aviationwx_org_bridge.Prelude.{
  ℕ, zero, suc, ◌+◌, ◌-◌, ◌*◌, ◌/◌, ◌^◌, ◌≤◌, ◌<◌, ◌≡◌, refl, false, ltb, min, arith, ◌==◌,
}
use aviationwx_org_bridge.Prelude.Int.{pos, pos-add}
use aviationwx_org_bridge.Prelude.Ratio.{Ratio, scale}
use aviationwx_org_bridge.Scheduler.Backoff.{
  BackoffConfig, default_backoff_config, CameraState, capped, jittered, calculate_backoff,
  update_backoff, should_attempt,
}

-- A random number: not negative, and below 1.
pub record IsRandom (r : Ratio) : Type 0 where
  pub numerator : ℕ
  pub positive : r.num ≡ pos numerator
  pub below_one : numerator < r.den

-- The documented delay in seconds: it doubles from a minute up to an hour.
unfoldable pub doubled : ℕ → ℕ
doubled zero = 60
doubled (suc n) = min 3600 (2 * doubled n)

one-pow : (n : ℕ) → 1 ^ n ≡ 1
one-pow zero = refl
one-pow (suc n) = omega (arith, one-pow n)

doubled-min : (n : ℕ) → doubled n ≡ min 3600 (60 * 2 ^ n)
unfolding doubled
doubled-min zero = refl
doubled-min (suc n) = omega (arith, doubled-min n)

pub doubled_bounds : (n : ℕ) → (60 ≤ doubled n) × (doubled n ≤ 3600) × (120 ≤ doubled (suc n))
unfolding doubled
doubled_bounds zero = omega arith
doubled_bounds (suc n) = omega (arith, doubled_bounds n)

capped_default :
    (n : ℕ) → capped default_backoff_config n ≡ record { num = pos (doubled n); den = 1 }
unfolding capped
capped_default n = ground (arith, one-pow n, doubled-min n)

-- A random fifth more, at most.
jittered_bounds :
    (b x d : ℕ)
    → x < d
    → (b ≤ 1 * (b * (5 * d + x)) / (1 * (5 * d)))
      × (1 * (b * (5 * d + x)) / (1 * (5 * d)) ≤ b + b / 5)
jittered_bounds b x d lt =
    let more : b * x ≤ b * d = mul-le-mul_left b (omega arith) in
    let fifth : b * d ≤ (5 * (b / 5) + 4) * d = mul-le-mul_right d (omega arith) in
    let positive : 0 < 1 * (5 * d) = omega arith in
    (
      (le-div_iff_mul-le positive).1 (omega arith),
      omega (
        arith,
        (div-lt_iff_lt-mul {k = 1 * (5 * d)} {x = 1 * (b * (5 * d + x))} {y = suc (b + b / 5)}
              positive).1
            (omega arith),
      ),
    )

-- After n + 1 failures in a row the delay is that of the documented doubling, from a minute up to an
-- hour, and by the jitter at most a fifth longer.
pub calculate_backoff_default :
    (random : Ratio) (s : CameraState) (n : ℕ)
    → IsRandom random
    → s.failure_count ≡ suc n
    → let delay = calculate_backoff random s default_backoff_config in
      (doubled n ≤ delay) × (delay ≤ doubled n + doubled n / 5)
unfolding calculate_backoff jittered scale
calculate_backoff_default random s n r h =
    let before : suc n - 1 ≡ n = omega arith in
    let failed : (suc n == 0) ≡ false = ground arith in
    rw (h, failed, before, capped_default n, r.positive)
      (jittered_bounds (doubled n) r.numerator random.den r.below_one)

-- A failed camera is not tried before its delay is over, and is tried after it.
pub should_attempt-update_backoff :
    (now later : ℕ) (random : Ratio) (c : BackoffConfig) (s : CameraState)
    → let s' = update_backoff (pos now) random c s in
      should_attempt (pos later) s' ≡ ltb (now + s'.backoff_seconds * 1_000_000_000) later
unfolding update_backoff should_attempt
should_attempt-update_backoff now later random c s = ground (
  arith,
  pos-add now (
      calculate_backoff random (record s { failure_count = s.failure_count + 1 }) c
      * 1_000_000_000),
)
