-- ===== src/Scheduler/Tests.antt =====
-- The theorems on internal/scheduler at concrete cameras.
use aviationwx_org_bridge.Prelude.{
  ℕ, ◌+◌, ◌*◌, ◌/◌, ◌≤◌, ◌≡◌, refl, true, false, List, [], ◌∷◌, none, some, arith,
}
use aviationwx_org_bridge.Prelude.Int.{pos, ◌≤ℤ◌, ◌-ℤ◌, ◌+ℤ◌}
use aviationwx_org_bridge.Prelude.Ratio.{Ratio, ratio}
use aviationwx_org_bridge.Prelude.Clock.{second, seconds, zero_time}
use aviationwx_org_bridge.Files.Bytes.{codes}
use aviationwx_org_bridge.Queue.Types.{image_from_future}
use aviationwx_org_bridge.Queue.Enqueue.{refused, enqueue}
use aviationwx_org_bridge.Queue.Consistent.{Consistent}
use aviationwx_org_bridge.Queue.Tests.{three_images, three_images-Consistent}
use aviationwx_org_bridge.Time.Authority.{
  Authority, default_authority_config, determine_observation_time, decide, camera_exif,
}
use aviationwx_org_bridge.Scheduler.Backoff.{CameraState, default_backoff_config, calculate_backoff}
use aviationwx_org_bridge.Scheduler.Delays.{IsRandom, doubled, calculate_backoff_default}
use aviationwx_org_bridge.Scheduler.Degraded.{Report, failed_at, succeeded}
use aviationwx_org_bridge.Scheduler.Capture.{
  CaptureWorker, Job, captured, exif_read, new_capture_worker, handle_capture_error, observe,
  capture,
}
use aviationwx_org_bridge.Scheduler.Jobs.{capture-Consistent, handle_capture_error_delay}
use aviationwx_org_bridge.Scheduler.Ticks.{Ends, capture-Ends}
use aviationwx_org_bridge.Scheduler.Clocks.{camera_ahead_refused}

abbrev half : Ratio
half = ratio 1 2

half-IsRandom : IsRandom half
half-IsRandom = record { numerator = 1; positive = refl; below_one = omega arith }

abbrev noon : ℕ
noon = 1_735_142_740_000_000_000

-- A camera of a queue with three images, whose time is that of the bridge.
abbrev bridge : Authority
bridge = record { ntp_health = none; to_utc = λ t. t; config = default_authority_config }

abbrev worker : CaptureWorker
worker = new_capture_worker (pos noon) (codes "north") three_images (some bridge) (pos 60)

-- Three failures so far.
abbrev shaky : CameraState
shaky = record {
  camera_id = codes "north";
  last_success = zero_time;
  last_error = none;
  last_error_time = zero_time;
  next_attempt = zero_time;
  backoff_seconds = 0;
  failure_count = 3;
  success_count = 0;
  is_backing_off = true;
}

calculate_backoff_default_example :
    let delay = calculate_backoff half shaky default_backoff_config in
    (doubled 2 ≤ delay) × (delay ≤ doubled 2 + doubled 2 / 5)
calculate_backoff_default_example = calculate_backoff_default half shaky 2 half-IsRandom refl

-- A job that gets an image of 5000 bytes with the bridge's time.
abbrev job : Job
job = record {
  cut_short = false;
  start = pos noon;
  shot = captured 5000;
  exif = exif_read (some (pos noon));
  processed = λ n. some 3000;
  stamped = λ n r. some 3100;
  enqueued_at = pos (noon + second);
  succeeded_at = pos (noon + second);
  failed_at = pos (noon + second);
  random = half;
  ended_at = pos (noon + 2 * second);
}

capture-Consistent_example : Consistent (capture job worker).1.queue
unfolding new_capture_worker observe determine_observation_time decide ◌-ℤ◌
capture-Consistent_example =
    capture-Consistent job worker noon refl (omega arith) three_images-Consistent

capture-Ends_example :
    ((capture job worker).1.captures_total ≡ worker.captures_total + 1)
    × Ends job worker job.cut_short job.shot (capture job worker)
capture-Ends_example = capture-Ends job worker

handle_capture_error_delay_example :
    let s = (handle_capture_error (pos noon) half (codes "no route") worker).state in
    (s.failure_count ≡ 0 + 2)
    × (doubled (0 + 1) ≤ s.backoff_seconds)
    × (s.backoff_seconds ≤ doubled (0 + 1) + doubled (0 + 1) / 5)
    × (120 ≤ s.backoff_seconds)
    × (s.next_attempt ≡ pos noon +ℤ seconds s.backoff_seconds)
    × (pos noon +ℤ seconds 120 ≤ℤ s.next_attempt)
unfolding new_capture_worker
handle_capture_error_delay_example =
    handle_capture_error_delay (pos noon) half (codes "no route") worker half-IsRandom

-- A camera that is 20 seconds ahead.
camera_ahead_refused_example :
    let r = determine_observation_time bridge (pos noon) (some (pos (noon + 20 * second))) in
    (r.source ≡ camera_exif)
    × (enqueue (pos (noon + second)) 5000 r.time three_images
        ≡ (refused image_from_future, three_images))
unfolding ◌-ℤ◌ ◌+ℤ◌
camera_ahead_refused_example =
    camera_ahead_refused bridge (pos noon) (pos (noon + 20 * second)) (pos (noon + second)) 5000
      three_images refl refl (omega arith) refl refl (omega arith)

-- Three failures after a success.
abbrev history : List Report
history =
    failed_at (pos 1) ∷ succeeded ∷ failed_at (pos 2) ∷ failed_at (pos 3) ∷ failed_at (pos 4) ∷ []
