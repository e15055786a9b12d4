-- ===== src/Scheduler/Clocks.antt =====
-- The clock of a camera against the checks of Enqueue: internal/time/authority.go takes the time of
-- a camera that is up to 30 seconds off, internal/queue/queue.go refuses images that are more than 5
-- seconds ahead.
use aviationwx_org_bridge.Prelude.{ℕ, ◌*◌, ◌≤◌, ◌≡◌, true, false, some, arith, ◌≢◌}
use aviationwx_org_bridge.Prelude.Int.{abs, ◌+ℤ◌, ◌-ℤ◌, ◌≤ℤ◌, +ℤ_parts, -ℤ_parts}
use aviationwx_org_bridge.Prelude.Clock.{GoTime, seconds, second, after}
use aviationwx_org_bridge.Queue.Types.{Queue, image_from_future}
use aviationwx_org_bridge.Queue.Enqueue.{refused, enqueue, check_image}
use aviationwx_org_bridge.Time.Authority.{
  Authority, default_authority_config, is_ntp_healthy, camera_exif, decide, saturate, magnitude,
  determine_observation_time,
}

refused_from_future :
    (now : GoTime) (size : ℕ) (t : GoTime) (q : Queue)
    → q.capture_paused ≡ false
    → 100 ≤ size
    → after t (now +ℤ seconds 5) ≡ true
    → enqueue now size t q ≡ (refused image_from_future, q)
unfolding enqueue check_image
refused_from_future now size t q unpaused large ahead = ground arith

decide_minor :
    (start camera : GoTime)
    → abs (start -ℤ camera) ≤ 30 * second
    → let r = decide default_authority_config start camera in
      (r.source ≡ camera_exif) × (r.time ≡ camera)
unfolding decide saturate magnitude
decide_minor start camera near = ground arith

-- With the default configuration, a healthy clock and a camera whose clock is at most 30 seconds
-- off, the camera's time is taken; if it is more than 5 seconds ahead when the image is queued, the
-- queue refuses the image as one from the future.
pub camera_ahead_refused :
    (a : Authority) (start naive now : GoTime) (size : ℕ) (q : Queue)
    → is_ntp_healthy a ≡ true
    → a.config ≡ default_authority_config
    → abs (start -ℤ a.to_utc naive) ≤ 30 * second
    → after (a.to_utc naive) (now +ℤ seconds 5) ≡ true
    → q.capture_paused ≡ false
    → 100 ≤ size
    → let r = determine_observation_time a start (some naive) in
      (r.source ≡ camera_exif) × (enqueue now size r.time q ≡ (refused image_from_future, q))
unfolding determine_observation_time
camera_ahead_refused a start naive now size q healthy as_is near ahead unpaused large =
    let (source, time) = decide_minor start (a.to_utc naive) near in
    rw (healthy, as_is, time)
      (source, refused_from_future now size (a.to_utc naive) q unpaused large ahead)

-- An image whose observation time is at most 5 seconds off the start of its capture, as with a
-- camera in tolerance or without a camera time, is never refused as one from the future.
pub in_tolerance_ne_future :
    (start now t : GoTime) (size : ℕ) (q : Queue)
    → abs (start -ℤ t) ≤ 5 * second
    → start ≤ℤ now
    → check_image now size t q ≢ some image_from_future
unfolding check_image
in_tolerance_ne_future start now t size q near order e =
    ground (arith, -ℤ_parts start t, +ℤ_parts now (seconds 5))
