-- ===== src/Scheduler/Backoff.antt =====
-- internal/scheduler/backoff.go and types.go: when a camera that failed is tried again. A random
-- number of the jitter is a fraction from 0 to below 1.
use aviationwx_org_bridge.Prelude.{
  ℕ, ◌+◌, ◌-◌, ◌*◌, ◌^◌, Bool, true, false, ◌||◌, Option, none, if◌then◌else◌, ◌==◌,
}
use aviationwx_org_bridge.Prelude.Int.{pos, pos_part, ◌+ℤ◌}
use aviationwx_org_bridge.Prelude.Ratio.{Ratio, ratio, ratio_lt, scale}
use aviationwx_org_bridge.Prelude.Clock.{GoTime, seconds, zero_time, is_zero, after}
use aviationwx_org_bridge.Files.Bytes.{Bytes}

pub record BackoffConfig : Type 0 where
  pub initial_seconds : ℕ
  pub max_seconds : ℕ
  pub multiplier : Ratio
  pub jitter : Bool

abbrev pub default_backoff_config : BackoffConfig
default_backoff_config = record {
  initial_seconds = 60;
  max_seconds = 3600;
  multiplier = ratio 2 1;
  jitter = true;
}

-- The last error is its text.
pub record CameraState : Type 0 where
  pub camera_id : Bytes
  pub last_success : GoTime
  pub last_error : Option Bytes
  pub last_error_time : GoTime
  pub next_attempt : GoTime
  pub backoff_seconds : ℕ
  pub failure_count : ℕ
  pub success_count : ℕ
  pub is_backing_off : Bool

-- initial * multiplier ^ n
abbrev pub exponential : BackoffConfig → ℕ → Ratio
exponential c n = record {
  num = pos (c.initial_seconds * pos_part c.multiplier.num ^ n);
  den = c.multiplier.den ^ n;
}

unfoldable pub capped : BackoffConfig → ℕ → Ratio
capped c n =
    if ratio_lt (ratio c.max_seconds 1) (exponential c n)
    then ratio c.max_seconds 1
    else exponential c n

-- backoff + backoff * 0.2 * random
unfoldable pub jittered : Ratio → Ratio → Ratio
jittered random b = record {
  num = pos (pos_part b.num * (5 * random.den + pos_part random.num));
  den = b.den * (5 * random.den);
}

unfoldable pub calculate_backoff : Ratio → CameraState → BackoffConfig → ℕ
calculate_backoff random s c =
    let b = capped c (s.failure_count - 1) in
    if s.failure_count == 0 then 0 else scale 1 (if c.jitter then jittered random b else b)

-- `now` is the clock.
unfoldable pub update_backoff : GoTime → Ratio → BackoffConfig → CameraState → CameraState
update_backoff now random c s =
    let failed = record s { failure_count = s.failure_count + 1 } in
    let delay = calculate_backoff random failed c in
    record failed {
      is_backing_off = true;
      backoff_seconds = delay;
      next_attempt = now +ℤ seconds delay;
    }

unfoldable pub reset_backoff : CameraState → CameraState
reset_backoff s = record s {
  failure_count = 0;
  success_count = s.success_count + 1;
  is_backing_off = false;
  backoff_seconds = 0;
  last_error = none;
  last_error_time = zero_time;
}

unfoldable pub should_attempt : GoTime → CameraState → Bool
should_attempt now s = after now s.next_attempt || is_zero s.next_attempt
