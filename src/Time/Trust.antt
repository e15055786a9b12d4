-- ===== src/Time/Trust.antt =====
-- How far an observation time of internal/time/authority.go can be from the bridge's clock.
use aviationwx_org_bridge.Prelude.{
  sym, ℕ, ◌-◌, ◌^◌, ◌*◌, ◌≤◌, ◌<◌, ◌≡◌, refl, ◌⊎◌, inl, inr, true, Option, none, some, arith, max,
  Bool-cases, subst,
}
use mathlib.Core.Option.{some-injective}
use aviationwx_org_bridge.Prelude.Int.{abs, negsuc, ◌-ℤ◌, ◌≤ℤ◌, ◌<ℤ◌}
use aviationwx_org_bridge.Prelude.Clock.{GoTime, second}
use aviationwx_org_bridge.Time.Authority.{
  Authority, AuthorityConfig, saturate, magnitude, decide, determine_observation_time, camera_exif,
  bridge_clock, is_ntp_healthy,
}

-- A camera is near: its clock is within a bound of the bridge's, or it is so far ahead, by 2^63
-- nanoseconds or more, that the difference of the two times overflows.
abbrev pub Near : ℕ → GoTime → GoTime → Type 0
Near bound start camera =
    (abs (start -ℤ camera) ≤ bound * second) ⊎ (start -ℤ camera ≤ℤ negsuc (2 ^ 63 - 1))

abbrev pub Far : ℕ → GoTime → GoTime → Type 0
Far bound start camera =
    (bound * second < abs (start -ℤ camera)) × (negsuc (2 ^ 63 - 1) <ℤ start -ℤ camera)

-- The two bounds in a configuration as one.
abbrev pub bound_of : AuthorityConfig → ℕ
bound_of config = max config.camera_tolerance_seconds config.camera_warn_drift_seconds

-- The camera's time is taken, or it is too far off.
decide_source :
    (config : AuthorityConfig) (start camera : GoTime)
    → bound_of config * second < 2 ^ 63 - 1
    → let r = decide config start camera in
      ((r.source ≡ camera_exif) × (r.time ≡ camera) × Near (bound_of config) start camera)
      ⊎ ((r.source ≡ bridge_clock) × (r.time ≡ start) × Far (bound_of config) start camera)
unfolding decide saturate magnitude
decide_source config start camera small = ground arith

Far-not_Near :
    (bound : ℕ) (start camera : GoTime) → Far bound start camera → ¬ Near bound start camera
Far-not_Near bound start camera far (inl close) = omega (arith, far.0, close)
Far-not_Near bound start camera far (inr ahead) = omega (arith, far.1, ahead)

-- The clock of the bridge is healthy and the camera gave a time that is near.
abbrev pub Trusted : Authority → GoTime → Option GoTime → Type 0
Trusted a start exif =
    (is_ntp_healthy a ≡ true)
    × ((t : GoTime) × (exif ≡ some t) × Near (bound_of a.config) start (a.to_utc t))

-- The observation time is the camera's exactly if the bridge's clock is healthy, the camera gave a
-- time, and that is no further from the start of the capture than the larger of the tolerance and the
-- drift that is warned about, or is 2^63 nanoseconds or more ahead of it; otherwise it is the start of
-- the capture. The two bounds of the configuration are below the largest Duration.
pub determine_observation_time_source :
    (a : Authority) (start : GoTime) (exif : Option GoTime)
    → bound_of a.config * second < 2 ^ 63 - 1
    → let r = determine_observation_time a start exif in
      ((r.source ≡ camera_exif)
        × ((trusted : Trusted a start exif) × (r.time ≡ a.to_utc trusted.1.0)))
      ⊎ ((r.source ≡ bridge_clock) × (r.time ≡ start) × ¬ Trusted a start exif)
unfolding determine_observation_time
determine_observation_time_source a start none small = elim (Bool-cases (is_ntp_healthy a)) [
  | inl healthy ↦ rw healthy (inr (refl, refl, λ (h, (t, e, near)). absurd (cc (e))))
  | inr sick ↦ rw sick (inr (refl, refl, λ (h, (t, e, near)). absurd (cc (h, sick))))
]
determine_observation_time_source a start (some naive) small =
    elim (Bool-cases (is_ntp_healthy a)) [
      | inr sick ↦ rw sick (inr (refl, refl, λ (h, (t, e, near)). absurd (cc (h))))
      | inl healthy ↦ rw healthy (elim (decide_source a.config start (a.to_utc naive) small) [
        | inl (source, time, near) ↦ inl (source, ((refl, (naive, refl, near)), time))
        | inr (source, time, far) ↦ inr (
          source,
          time,
          λ (h, (t, e, near)). Far-not_Near (bound_of a.config) start (a.to_utc naive) far (
              subst (λ x. Near (bound_of a.config) start (a.to_utc x))
                (sym (some-injective naive t e)) near),
        )
      ])
    ]
