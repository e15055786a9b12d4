-- ===== src/Resource/Limiter.antt =====
-- internal/resource/limiter.go: the numbers of slots that are configured, and the slots, which are channels
-- with a buffer. Adaptive throttling and the statistics are left out.
use aviationwx_org_bridge.Prelude.{
  ℕ, ◌+◌, ◌-◌, ◌/◌, Bool, true, false, Option, none, some, if◌then◌else◌, ltb, leb,
}
use aviationwx_org_bridge.Prelude.Int.{ℤ, pos, negsuc}

-- Config, as far as slots go.
pub record SlotConfig : Type 0 where
  pub max_concurrent_image_processing : ℤ
  pub max_concurrent_exif_operations : ℤ

abbrev pub max : ℕ → ℕ → ℕ
max a b = if ltb b a then a else b

-- DefaultConfig, on a number of CPUs and megabytes of memory.
unfoldable pub default_config : ℕ → ℕ → SlotConfig
default_config cpus memory_mb = record {
  max_concurrent_image_processing = if leb 1_024 memory_mb then pos (max 1 (cpus / 2)) else pos 1;
  max_concurrent_exif_operations = pos 1;
}

-- The capacities of the two channels.
pub record Limits : Type 0 where
  pub image_processing : ℕ
  pub exif_operations : ℕ

-- A number that is not positive takes the default.
abbrev pub positive_or : ℕ → ℤ → ℕ
positive_or d (pos n) = if ltb 0 n then n else d
positive_or d (negsuc n) = d

-- NewLimiter.
unfoldable pub new_limiter : ℕ → SlotConfig → Limits
new_limiter cpus c = record {
  image_processing = positive_or (max 1 (cpus / 2)) c.max_concurrent_image_processing;
  exif_operations = positive_or 1 c.max_concurrent_exif_operations;
}

-- Sending to a channel with some elements: the number after it, or none while it blocks.
unfoldable pub acquire : ℕ → ℕ → Option ℕ
acquire capacity used = if ltb used capacity then some (used + 1) else none

-- TryAcquireImageProcessing and TryAcquireExifOperation.
unfoldable pub try_acquire : ℕ → ℕ → Bool × ℕ
try_acquire capacity used = if ltb used capacity then (true, used + 1) else (false, used)

-- Receiving, which blocks on an empty channel.
unfoldable pub release : ℕ → Option ℕ
release used = if ltb 0 used then some (used - 1) else none
