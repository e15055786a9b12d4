-- ===== src/Prelude/Clock.antt =====
-- time.Time and time.Duration as signed nanoseconds, times from the Unix epoch.
use aviationwx_org_bridge.Prelude.{ℕ, suc, ◌-◌, ◌*◌, ◌/◌, ◌≡◌, Bool, arith, ◌&&◌}
use aviationwx_org_bridge.Prelude.Int.{ℤ, pos, negsuc, ltb_ℤ, leb_ℤ}

abbrev pub GoTime : Type 0
GoTime = ℤ

abbrev pub Duration : Type 0
Duration = ℤ

abbrev pub second : ℕ
second = 1_000_000_000

abbrev pub millisecond : ℕ
millisecond = 1_000_000

abbrev pub seconds : ℕ → Duration
seconds n = pos (n * second)

-- The zero value of time.Time: the first of January of the year 1.
abbrev pub zero_time : GoTime
zero_time = negsuc (62_135_596_800 * second - 1)

abbrev pub is_zero : GoTime → Bool
is_zero t = leb_ℤ t zero_time && leb_ℤ zero_time t

abbrev pub before : GoTime → GoTime → Bool
before a b = ltb_ℤ a b

abbrev pub after : GoTime → GoTime → Bool
after a b = ltb_ℤ b a

-- t.UnixMilli(), which rounds down.
unfoldable pub unix_milli : GoTime → ℤ
unix_milli (pos n) = pos (n / millisecond)
unix_milli (negsuc n) = negsuc (n / millisecond)

-- time.UnixMilli(ms).
unfoldable pub from_unix_milli : ℤ → GoTime
from_unix_milli (pos n) = pos (n * millisecond)
from_unix_milli (negsuc n) = negsuc (suc n * millisecond - 1)

-- A time of whole milliseconds is kept.
pub unix_milli-from_unix_milli : (ms : ℤ) → unix_milli (from_unix_milli ms) ≡ ms
unfolding unix_milli from_unix_milli
unix_milli-from_unix_milli (pos n) = ground arith
unix_milli-from_unix_milli (negsuc n) = ground arith
