-- ===== src/Time/Tests.antt =====
-- The theorems on internal/time at concrete clocks.
use aviationwx_org_bridge.Prelude.{
  arith, ◌-◌, ◌*◌, ◌≡◌, ◌⊎◌, [], ◌∷◌, Option, none, some, if◌then◌else◌,
}
use aviationwx_org_bridge.Prelude.Int.{pos, negsuc, ◌-ℤ◌}
use aviationwx_org_bridge.Prelude.Clock.{Duration, second}
use aviationwx_org_bridge.Files.Bytes.{Bytes, codes, bytes_eq}
use aviationwx_org_bridge.Time.Health.{TimeHealth, new_time_health}
use aviationwx_org_bridge.Time.Authority.{
  Authority, default_authority_config, determine_observation_time, camera_exif, bridge_clock,
}
use aviationwx_org_bridge.Time.Trust.{Trusted, determine_observation_time_source}

-- The first of two servers is silent, the second answers two seconds.
abbrev two_servers : TimeHealth
two_servers = new_time_health (record {
  servers = codes "a.example" ∷ codes "b.example" ∷ [];
  check_interval_seconds = pos 0;
  max_offset_seconds = pos 0;
})

abbrev ask : Bytes → Option Duration
ask s = if bytes_eq s (codes "a.example") then none else some (pos (2 * second))

-- A bridge whose zone is an hour behind UTC, without a clock check.
abbrev pub hour_behind : Authority
hour_behind = record {
  ntp_health = none;
  to_utc = λ t. t -ℤ negsuc (3600 * second - 1);
  config = default_authority_config;
}

determine_observation_time_source_example :
    let r = determine_observation_time hour_behind (pos 0) (some (pos 7)) in
    ((r.source ≡ camera_exif)
      × ((trusted : Trusted hour_behind (pos 0) (some (pos 7))) × (r.time
            ≡ hour_behind.to_utc trusted.1.0)))
    ⊎ ((r.source ≡ bridge_clock) × (r.time ≡ pos 0) × ¬ Trusted hour_behind (pos 0) (some (pos 7)))
determine_observation_time_source_example =
    determine_observation_time_source hour_behind (pos 0) (some (pos 7)) (omega arith)
