-- ===== src/Time/Authority.antt =====
-- internal/time/authority.go: which clock gives the time of an observation, the camera's or the
-- bridge's. The messages of the warnings are left out.
use aviationwx_org_bridge.Prelude.{
  ℕ, suc, ◌-◌, ◌*◌, ◌^◌, Bool, true, Option, none, some, leb, ltb, if◌then◌else◌,
}
use aviationwx_org_bridge.Prelude.Int.{ℤ, pos, negsuc, ◌-ℤ◌}
use aviationwx_org_bridge.Prelude.Clock.{GoTime, Duration, second}
use aviationwx_org_bridge.Time.Health.{TimeHealth}

pub data TimeSource : Type 0 where
  camera_exif bridge_clock : TimeSource

pub data Confidence : Type 0 where
  high medium low : Confidence

pub data WarningCode : Type 0 where
  ntp_unhealthy camera_clock_drift camera_clock_rejected camera_clock_invalid : WarningCode

-- The details: the offset of the bridge, or how far the camera is behind it.
pub record TimeWarning : Type 0 where
  pub code : WarningCode
  pub details : Duration

pub record ObservationResult : Type 0 where
  pub time : GoTime
  pub source : TimeSource
  pub confidence : Confidence
  pub warning : Option TimeWarning

-- The timezone is a parameter of the authority: see `Authority.to_utc`.
pub record AuthorityConfig : Type 0 where
  pub camera_tolerance_seconds : ℕ
  pub camera_warn_drift_seconds : ℕ
  pub camera_reject_drift_seconds : ℕ

abbrev pub default_authority_config : AuthorityConfig
default_authority_config = record {
  camera_tolerance_seconds = 5;
  camera_warn_drift_seconds = 30;
  camera_reject_drift_seconds = 300;
}

-- `to_utc` reads a time without a zone in the zone of the bridge, by the zone database.
pub record Authority : Type 0 where
  pub ntp_health : Option TimeHealth
  pub to_utc : GoTime → GoTime
  pub config : AuthorityConfig

abbrev pub is_ntp_healthy : Authority → Bool
is_ntp_healthy a = elim a.ntp_health [ none ↦ true | some th ↦ th.healthy ]

abbrev pub get_ntp_offset : Authority → Duration
get_ntp_offset a = elim a.ntp_health [ none ↦ pos 0 | some th ↦ th.offset ]

abbrev from_bridge : GoTime → Confidence → Option TimeWarning → ObservationResult
from_bridge t c w = record { time = t; source = bridge_clock; confidence = c; warning = w }

abbrev from_camera : GoTime → Option TimeWarning → ObservationResult
from_camera t w = record { time = t; source = camera_exif; confidence = high; warning = w }

abbrev warn : WarningCode → Duration → Option TimeWarning
warn code details = some (record { code = code; details = details })

-- A difference as time.Time.Sub gives it: one that is out of range becomes the largest or the smallest
-- Duration.
unfoldable pub saturate : ℤ → Duration
saturate (ℤ.pos n) = pos (if ltb n (2 ^ 63) then n else 2 ^ 63 - 1)
saturate (ℤ.negsuc n) = negsuc (if ltb n (2 ^ 63) then n else 2 ^ 63 - 1)

-- The absolute value of a Duration; the smallest one has no negation and stays negative.
unfoldable pub magnitude : Duration → Duration
magnitude (ℤ.pos n) = pos n
magnitude (ℤ.negsuc n) = if ltb n (2 ^ 63 - 1) then pos (suc n) else negsuc n

-- Whether a Duration is at most some seconds.
abbrev at_most : Duration → ℕ → Bool
at_most (ℤ.pos n) secs = leb n (secs * second)
at_most (ℤ.negsuc n) secs = true

-- The decision for a camera time in UTC, by how far the two clocks are apart.
unfoldable pub decide : AuthorityConfig → GoTime → GoTime → ObservationResult
unfolding saturate magnitude
decide config start camera =
    let drift = saturate (start -ℤ camera) in
    let far = magnitude drift in
    if at_most far config.camera_tolerance_seconds
    then from_camera camera none
    else if at_most far config.camera_warn_drift_seconds
    then from_camera camera (warn camera_clock_drift drift)
    else if at_most far config.camera_reject_drift_seconds
    then from_bridge start high (warn camera_clock_rejected drift)
    else from_bridge start high (warn camera_clock_invalid drift)

unfoldable pub determine_observation_time : Authority → GoTime → Option GoTime → ObservationResult
determine_observation_time a start exif =
    if is_ntp_healthy a
    then elim exif [
      | none ↦ from_bridge start high none
      | some naive ↦ decide a.config start (a.to_utc naive)
    ]
    else from_bridge start low (warn ntp_unhealthy (get_ntp_offset a))
