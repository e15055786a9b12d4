-- ===== src/Scheduler/Capture.antt =====
-- internal/scheduler/capture.go: the worker that captures the images of one camera.
use aviationwx_org_bridge.Prelude.{ℕ, ◌+◌, Bool, true, false, Option, none, some, if◌then◌else◌}
use aviationwx_org_bridge.Prelude.Int.{ℤ, pos, ◌+ℤ◌, ltb_ℤ}
use aviationwx_org_bridge.Prelude.Ratio.{Ratio}
use aviationwx_org_bridge.Prelude.Clock.{GoTime, Duration, seconds, before, zero_time}
use aviationwx_org_bridge.Files.Bytes.{Bytes}
use aviationwx_org_bridge.Queue.Types.{Queue}
use aviationwx_org_bridge.Queue.Enqueue.{EnqueueResult, enqueued, refused, out_of_fuel, enqueue}
use aviationwx_org_bridge.Time.Authority.{
  Authority, ObservationResult, bridge_clock, high, determine_observation_time,
}
use aviationwx_org_bridge.Scheduler.Backoff.{
  CameraState, default_backoff_config, update_backoff, reset_backoff,
}

pub record CaptureWorker : Type 0 where
  pub queue : Queue
  pub authority : Option Authority
  pub state : CameraState
  pub interval : Duration
  pub captures_total : ℕ
  pub captures_failed : ℕ
  pub exif_read_failed : ℕ
  pub exif_write_failed : ℕ
  pub next_capture_time : GoTime
  pub currently_capturing : Bool
  pub last_capture_time : GoTime

-- The interval of a worker: 60 seconds if less than one is configured, and half an hour at most.
unfoldable pub capture_interval : ℤ → Duration
capture_interval secs =
    if ltb_ℤ secs (pos 1)
    then seconds 60
    else if ltb_ℤ (pos 1800) secs
    then seconds 1800
    else secs_to_duration secs
  where
    secs_to_duration : ℤ → Duration
    secs_to_duration (ℤ.pos n) = seconds n
    secs_to_duration (ℤ.negsuc n) = pos 0

-- NewCaptureWorker, at a time.
unfoldable pub new_capture_worker : GoTime → Bytes → Queue → Option Authority → ℤ → CaptureWorker
new_capture_worker now id q authority secs = record {
  queue = q;
  authority = authority;
  state = record {
    camera_id = id;
    last_success = zero_time;
    last_error = none;
    last_error_time = zero_time;
    next_attempt = now;
    backoff_seconds = 0;
    failure_count = 0;
    success_count = 0;
    is_backing_off = false;
  };
  interval = capture_interval secs;
  captures_total = 0;
  captures_failed = 0;
  exif_read_failed = 0;
  exif_write_failed = 0;
  next_capture_time = zero_time;
  currently_capturing = false;
  last_capture_time = zero_time;
}

-- The camera's answer: an image of a size, or an error.
pub data Shot : Type 0 where
  captured : ℕ → Shot
  capture_failed : Bytes → Shot

-- readCameraEXIF: not tried, failed, or the time in the image if it has one that can be parsed.
pub data ExifRead : Type 0 where
  exif_skipped exif_failed : ExifRead
  exif_read : Option GoTime → ExifRead

-- What the clock, the camera and the tools answer during one capture.
pub record Job : Type 0 where
  -- The wait for the system to recover took longer than the job may.
  pub cut_short : Bool
  pub start : GoTime
  pub shot : Shot
  pub exif : ExifRead
  -- The size after resizing, unless that is not configured, skipped or fails.
  pub processed : ℕ → Option ℕ
  -- The size after the EXIF stamp, unless that fails.
  pub stamped : ℕ → ObservationResult → Option ℕ
  pub enqueued_at : GoTime
  pub succeeded_at : GoTime
  pub failed_at : GoTime
  pub random : Ratio
  pub ended_at : GoTime

-- The start of a job.
abbrev pub begun : CaptureWorker → CaptureWorker
begun w = record w { captures_total = w.captures_total + 1; currently_capturing = true }

-- The deferred end of a job.
abbrev pub ended : GoTime → CaptureWorker → CaptureWorker
ended t w = record w { currently_capturing = false; last_capture_time = t }

-- `failure_count` is raised here and again by `update_backoff`.
unfoldable pub handle_capture_error : GoTime → Ratio → Bytes → CaptureWorker → CaptureWorker
handle_capture_error now random text w = record w {
  captures_failed = w.captures_failed + 1;
  state = update_backoff now random default_backoff_config (record (w.state) {
    last_error = some text;
    last_error_time = now;
    failure_count = w.state.failure_count + 1;
  });
}

abbrev pub exif_time : ExifRead → Option GoTime
exif_time exif_skipped = none
exif_time exif_failed = none
exif_time (exif_read t) = t

abbrev pub count_exif : ExifRead → CaptureWorker → CaptureWorker
count_exif exif_failed w = record w { exif_read_failed = w.exif_read_failed + 1 }
count_exif exif_skipped w = w
count_exif (exif_read t) w = w

-- Without an authority the bridge's clock is trusted.
unfoldable pub observe : Job → CaptureWorker → ObservationResult
observe job w = elim w.authority [
  | some a ↦ determine_observation_time a job.start (exif_time job.exif)
  | none ↦ record { time = job.start; source = bridge_clock; confidence = high; warning = none }
]

abbrev pub or_else : ℕ → Option ℕ → ℕ
or_else n none = n
or_else n (some m) = m

abbrev pub count_stamp : Option ℕ → CaptureWorker → CaptureWorker
count_stamp none w = record w { exif_write_failed = w.exif_write_failed + 1 }
count_stamp (some _) w = w

unfoldable pub succeed : GoTime → CaptureWorker → CaptureWorker
succeed now w = record w {
  state =
      reset_backoff (record (w.state) { last_success = now; last_error = none; failure_count = 0 });
}

-- After Enqueue, and the image that the callback of a success gets.
unfoldable pub after_enqueue :
    GoTime
    → ℕ
    → GoTime
    → CaptureWorker
    → EnqueueResult × Queue
    → Option (ℕ × GoTime) × CaptureWorker
after_enqueue now size t w (enqueued thin, q) =
    (some (size, t), succeed now (record w { queue = q }))
after_enqueue now size t w (refused e, q) = (none, record w { queue = q })
after_enqueue now size t w (out_of_fuel, q) = (none, record w { queue = q })

-- From the camera's answer on.
unfoldable pub taken : Job → CaptureWorker → Shot → Option (ℕ × GoTime) × CaptureWorker
taken job w (capture_failed text) = (none, handle_capture_error job.failed_at job.random text w)
taken job w (captured size) =
    let seen = observe job w in
    let image = or_else size (job.processed size) in
    let stamp = job.stamped image seen in
    let w' = count_stamp stamp (count_exif job.exif w) in
    after_enqueue job.succeeded_at image seen.time w'
      (enqueue job.enqueued_at (or_else image stamp) seen.time w'.queue)

abbrev pub end_job :
    GoTime → Option (ℕ × GoTime) × CaptureWorker → Option (ℕ × GoTime) × CaptureWorker
end_job t (image, w) = (image, ended t w)

unfoldable pub capture : Job → CaptureWorker → Option (ℕ × GoTime) × CaptureWorker
capture job w =
    end_job job.ended_at (if job.cut_short then (none, begun w) else taken job (begun w) job.shot)

-- One tick of the loop in `run`, at a time.
unfoldable pub tick : GoTime → Job → CaptureWorker → Option (ℕ × GoTime) × CaptureWorker
tick now job w =
    let w' = record w { next_capture_time = now +ℤ w.interval } in
    if w.currently_capturing
    then (none, w)
    else if w.queue.capture_paused
    then (none, w')
    else if before now w.state.next_attempt
    then (none, w')
    else capture job w'
