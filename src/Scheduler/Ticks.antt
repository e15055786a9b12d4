-- ===== src/Scheduler/Ticks.antt =====
-- When a capture worker of internal/scheduler/capture.go captures, and how a job can end.
use aviationwx_org_bridge.Prelude.{
  Bool, subst, sym, ℕ, ◌+◌, ◌≤◌, ◌≡◌, refl, inl, inr, true, false, Option, none, some, arith,
  Bool-cases, ◌||◌, ◌∙◌, ap,
}
use aviationwx_org_bridge.Prelude.Int.{ℤ, pos, ◌≤ℤ◌, ◌+ℤ◌}
use aviationwx_org_bridge.Prelude.Clock.{GoTime, seconds, before}
use aviationwx_org_bridge.Queue.Types.{Queue}
use aviationwx_org_bridge.Queue.Enqueue.{enqueue, EnqueueResult, enqueued, refused, out_of_fuel}
use aviationwx_org_bridge.Scheduler.Backoff.{reset_backoff, update_backoff}
use aviationwx_org_bridge.Scheduler.Jobs.{queue-count_exif, queue-count_stamp}
use aviationwx_org_bridge.Scheduler.Capture.{
  CaptureWorker, Job, Shot, captured, capture_failed, begun, handle_capture_error, observe, succeed,
  end_job, after_enqueue, taken, capture, count_exif, count_stamp, or_else, ExifRead, exif_failed,
  exif_skipped, exif_read, tick, capture_interval,
}

-- A configured interval from one second to half an hour is used as it is; any other is brought into
-- that range.
pub capture_interval_bounds :
    (secs : ℤ)
    → let d = capture_interval secs in
      (seconds 1 ≤ℤ d)
      × (d ≤ℤ seconds 1800)
      × ((n : ℕ) → secs ≡ pos n → 1 ≤ n → n ≤ 1800 → d ≡ seconds n)
unfolding capture_interval
capture_interval_bounds (ℤ.pos n) = ground arith
capture_interval_bounds (ℤ.negsuc n) = ground arith

-- The size of a shot after resizing, and that of the image that is queued.
abbrev pub resized : Job → ℕ → ℕ
resized job size = or_else size (job.processed size)

abbrev pub final_size : Job → CaptureWorker → ℕ → ℕ
final_size job w size = or_else (resized job size) (job.stamped (resized job size) (observe job w))

-- What Enqueue answers to a shot of that size.
abbrev pub queued : Job → CaptureWorker → ℕ → EnqueueResult × Queue
queued job w size = enqueue job.enqueued_at (final_size job w size) (observe job w).time w.queue

-- The job is over.
abbrev pub Over : Job → CaptureWorker → Type 0
Over job w' = (w'.currently_capturing ≡ false) × (w'.last_capture_time ≡ job.ended_at)

-- How a job ends when the queue accepted the image, refused it, or still searches for a name for it.
abbrev pub Stored :
    Job → CaptureWorker → ℕ → EnqueueResult → Option (ℕ × GoTime) × CaptureWorker → Type 0
Stored job w size (enqueued thin) (image, w') =
    Over job w'
    × (image ≡ some (resized job size, (observe job w).time))
    × (w'.state.last_success ≡ job.succeeded_at)
    × (w'.state.failure_count ≡ 0)
    × (w'.state.success_count ≡ w.state.success_count + 1)
    × (w'.state.is_backing_off ≡ false)
Stored job w size (refused e) (image, w') = Over job w' × (image ≡ none) × (w'.state ≡ w.state)
Stored job w size out_of_fuel (image, w') = Unit

-- How a job ends that was cut short before the camera was asked, or that got an answer of the camera.
abbrev pub Ends : Job → CaptureWorker → Bool → Shot → Option (ℕ × GoTime) × CaptureWorker → Type 0
Ends job w true shot (image, w') =
    Over job w'
    × (image ≡ none)
    × (w'.captures_failed ≡ w.captures_failed)
    × (w'.queue ≡ w.queue)
    × (w'.state ≡ w.state)
Ends job w false (capture_failed text) (image, w') =
    Over job w'
    × (image ≡ none)
    × (w'.captures_failed ≡ w.captures_failed + 1)
    × (w'.queue ≡ w.queue)
    × (w'.state.last_error ≡ some text)
    × (w'.state.last_error_time ≡ job.failed_at)
    × (w'.state.failure_count ≡ w.state.failure_count + 1 + 1)
    × (w'.state.is_backing_off ≡ true)
    × (w'.state.next_attempt ≡ job.failed_at +ℤ seconds w'.state.backoff_seconds)
Ends job w false (captured size) (image, w') =
    (w'.captures_failed ≡ w.captures_failed)
    × (w'.queue ≡ (queued job w size).1)
    × Stored job w size (queued job w size).0 (image, w')

-- The parts of a worker that the counting of tool failures leaves alone.
abbrev Kept : CaptureWorker → CaptureWorker → Type 0
Kept w w' =
    (w'.captures_failed ≡ w.captures_failed)
    × (w'.state ≡ w.state)
    × (w'.captures_total ≡ w.captures_total)

Kept-count_exif : (e : ExifRead) (w : CaptureWorker) → Kept w (count_exif e w)
Kept-count_exif exif_failed w = (refl, refl, refl)
Kept-count_exif exif_skipped w = (refl, refl, refl)
Kept-count_exif (exif_read t) w = (refl, refl, refl)

Kept-count_stamp : (s : Option ℕ) (w : CaptureWorker) → Kept w (count_stamp s w)
Kept-count_stamp none w = (refl, refl, refl)
Kept-count_stamp (some n) w = (refl, refl, refl)

-- What the steps after Enqueue leave of the parts of a worker.
abbrev Leaves : Job → CaptureWorker → ℕ → EnqueueResult × Queue → CaptureWorker → Type 0
Leaves job v size r w =
    let after =
      end_job job.ended_at
        (after_enqueue job.succeeded_at (resized job size) (observe job v).time w r) in
    (after.1.captures_failed ≡ v.captures_failed)
    × (after.1.queue ≡ r.1)
    × (after.1.captures_total ≡ v.captures_total)
    × Stored job v size r.0 after

after_enqueue-Leaves :
    (job : Job) (size : ℕ) (v w : CaptureWorker) (r : EnqueueResult × Queue)
    → Kept v w
    → Leaves job v size r w
unfolding after_enqueue succeed reset_backoff
after_enqueue-Leaves job size v w (enqueued thin, q) k =
    (k.0, refl, k.2, ((refl, refl), refl, refl, refl, ap (λ s. s.success_count + 1) k.1, refl))
after_enqueue-Leaves job size v w (refused e, q) k = (k.0, refl, k.2, ((refl, refl), refl, k.1))
after_enqueue-Leaves job size v w (out_of_fuel, q) k = (k.0, refl, k.2, tt)

-- The end of a job that got an answer of the camera.
abbrev Answered : Job → CaptureWorker → Shot → Option (ℕ × GoTime) × CaptureWorker → Type 0
Answered job w shot r = (r.1.captures_total ≡ w.captures_total) × Ends job w false shot r

taken-Ends :
    (job : Job) (w : CaptureWorker) (shot : Shot)
    → Answered job w shot (end_job job.ended_at (taken job w shot))
unfolding taken handle_capture_error update_backoff
taken-Ends job w (capture_failed text) =
    (refl, ((refl, refl), refl, refl, refl, refl, refl, refl, refl, refl))
taken-Ends job w (captured size) =
    let stamp = job.stamped (resized job size) (observe job w) in
    let counted = count_exif job.exif w in
    let read = Kept-count_exif job.exif w in
    let wrote = Kept-count_stamp stamp counted in
    let same : (count_stamp stamp counted).queue ≡ w.queue =
      queue-count_stamp stamp counted ∙ queue-count_exif job.exif w in
    let (failed, queue, total, stored) =
      after_enqueue-Leaves job size w (count_stamp stamp counted) (queued job w size)
        (wrote.0 ∙ read.0, wrote.1 ∙ read.1, wrote.2 ∙ read.2) in
    subst
      (λ q. Answered job w (captured size) (
        end_job job.ended_at (
          after_enqueue job.succeeded_at (resized job size) (observe job w).time
            (count_stamp stamp counted)
            (enqueue job.enqueued_at (final_size job w size) (observe job w).time q))))
      (sym same) (total, (failed, queue, stored))

Ends-begun :
    (job : Job) (w : CaptureWorker) (shot : Shot) (r : Option (ℕ × GoTime) × CaptureWorker)
    → Answered job (begun w) shot r
    → (r.1.captures_total ≡ w.captures_total + 1) × Ends job w false shot r
unfolding observe
Ends-begun job w (capture_failed text) r a = a
Ends-begun job w (captured size) r a = a

-- Every capture job is counted. One that is cut short leaves the queue and the camera's state alone. If
-- the camera fails, that is recorded with its text and its time and counted, twice in the camera's
-- state, a backoff begins, and the queue is as before. If the camera answers, the queue is as Enqueue
-- of the image leaves it: when it accepts the image, the job hands the image on and any backoff ends,
-- when it refuses it, the camera's state is as before. Each of them leaves the worker ready for the next
-- job; nothing is said of the worker of a job whose search for a free name takes more rounds than
-- there are files and one.
pub capture-Ends :
    (job : Job) (w : CaptureWorker)
    → ((capture job w).1.captures_total ≡ w.captures_total + 1)
      × Ends job w job.cut_short job.shot (capture job w)
unfolding capture
capture-Ends job w = elim (Bool-cases job.cut_short) [
  | inl cut ↦ simp cut (refl, ((refl, refl), refl, refl, refl, refl))
  | inr full ↦ simp full (Ends-begun job w job.shot _ (taken-Ends job (begun w) job.shot))
]

-- A tick captures nothing, and leaves the queue and the camera's state alone, while a job runs,
-- while the queue has paused capture, and before the camera may be tried again.
pub tick_waits :
    (now : GoTime) (job : Job) (w : CaptureWorker)
    → (w.currently_capturing || w.queue.capture_paused || before now w.state.next_attempt) ≡ true
    → let (image, w') = tick now job w in
      (image ≡ none)
      × (w'.captures_total ≡ w.captures_total)
      × (w'.queue ≡ w.queue)
      × (w'.state ≡ w.state)
unfolding tick
tick_waits now job w h = ground arith
