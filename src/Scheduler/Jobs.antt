-- ===== src/Scheduler/Jobs.antt =====
-- What a capture job of internal/scheduler/capture.go does to its camera's state and queue.
use aviationwx_org_bridge.Prelude.{
  ℕ, suc, ◌+◌, ◌*◌, ◌/◌, ◌^◌, ◌≤◌, ◌<◌, ◌≡◌, refl, inl, inr, Option, none, some, arith, length,
  Bool-cases, subst, ◌∙◌, sym,
}
use aviationwx_org_bridge.Prelude.Int.{pos, ◌+ℤ◌, ◌≤ℤ◌, +ℤ_parts}
use aviationwx_org_bridge.Prelude.Ratio.{Ratio}
use aviationwx_org_bridge.Prelude.Clock.{GoTime, millisecond, seconds}
use aviationwx_org_bridge.Files.Bytes.{Bytes}
use aviationwx_org_bridge.Queue.Types.{Queue}
use aviationwx_org_bridge.Queue.Enqueue.{EnqueueResult, enqueued, refused, out_of_fuel, enqueue}
use aviationwx_org_bridge.Queue.Consistent.{Consistent}
use aviationwx_org_bridge.Queue.Store.{enqueue-Done}
use aviationwx_org_bridge.Scheduler.Backoff.{update_backoff}
use aviationwx_org_bridge.Scheduler.Delays.{
  IsRandom, doubled, calculate_backoff_default, doubled_bounds,
}
use aviationwx_org_bridge.Scheduler.Capture.{
  CaptureWorker, Job, Shot, captured, capture_failed, begun, handle_capture_error, observe, succeed,
  after_enqueue, taken, capture, count_exif, count_stamp, or_else, ExifRead, exif_failed,
  exif_skipped, exif_read,
}

pub queue-count_exif : (e : ExifRead) (w : CaptureWorker) → (count_exif e w).queue ≡ w.queue
queue-count_exif exif_failed w = refl
queue-count_exif exif_skipped w = refl
queue-count_exif (exif_read t) w = refl

pub queue-count_stamp : (s : Option ℕ) (w : CaptureWorker) → (count_stamp s w).queue ≡ w.queue
queue-count_stamp none w = refl
queue-count_stamp (some n) w = refl

queue-after_enqueue :
    (now : GoTime) (size : ℕ) (t : GoTime) (w : CaptureWorker) (r : EnqueueResult × Queue)
    → (after_enqueue now size t w r).1.queue ≡ r.1
unfolding after_enqueue succeed
queue-after_enqueue now size t w (enqueued thin, q) = refl
queue-after_enqueue now size t w (refused e, q) = refl
queue-after_enqueue now size t w (out_of_fuel, q) = refl

enqueue-Consistent_of :
    (now : GoTime) (size : ℕ) (t : GoTime) (s : ℕ) (p q : Queue)
    → t ≡ pos s
    → p ≡ q
    → s + suc (length q.entries) * millisecond < 2 ^ 63 * millisecond
    → Consistent q
    → Consistent (enqueue now size t p).1
enqueue-Consistent_of now size t s p q e same h c = rw (e, same) (enqueue-Done now size s q h c).0

taken-Consistent :
    (job : Job) (w : CaptureWorker) (shot : Shot) (s : ℕ)
    → (observe job w).time ≡ pos s
    → s + suc (length w.queue.entries) * millisecond < 2 ^ 63 * millisecond
    → Consistent w.queue
    → Consistent (taken job w shot).1.queue
unfolding taken handle_capture_error
taken-Consistent job w (capture_failed text) s e h c = c
taken-Consistent job w (captured size) s e h c =
    let seen = observe job w in
    let image = or_else size (job.processed size) in
    let stamp = job.stamped image seen in
    let w' = count_stamp stamp (count_exif job.exif w) in
    let same : w'.queue ≡ w.queue =
      queue-count_stamp stamp (count_exif job.exif w) ∙ queue-count_exif job.exif w in
    let result = enqueue job.enqueued_at (or_else image stamp) seen.time w'.queue in
    subst Consistent (sym (queue-after_enqueue job.succeeded_at image seen.time w' result)) (
      enqueue-Consistent_of job.enqueued_at (or_else image stamp) seen.time s w'.queue w.queue e
        same h c)

observe-begun :
    (job : Job) (w : CaptureWorker) → (observe job (begun w)).time ≡ (observe job w).time
unfolding observe
observe-begun job w = refl

-- A capture job keeps the counters of its queue right, whatever the camera, the tools and the disk
-- answer, if the observation time is from 1970 on and in the range of a file name.
pub capture-Consistent :
    (job : Job) (w : CaptureWorker) (s : ℕ)
    → (observe job w).time ≡ pos s
    → s + suc (length w.queue.entries) * millisecond < 2 ^ 63 * millisecond
    → Consistent w.queue
    → Consistent (capture job w).1.queue
unfolding capture
capture-Consistent job w s e h c = elim (Bool-cases job.cut_short) [
  | inl cut ↦ simp cut c
  | inr full ↦ simp full (taken-Consistent job (begun w) job.shot s (observe-begun job w ∙ e) h c)
]

later : (now : GoTime) (n : ℕ) → 120 ≤ n → now +ℤ seconds 120 ≤ℤ now +ℤ seconds n
later now n h = ground (arith, +ℤ_parts now (seconds 120), +ℤ_parts now (seconds n))

-- A capture that fails keeps the camera away for at least two minutes, the first time too: the count
-- of failures goes up by two, the delay is the documented one for the second failure of the two, for any
-- random number of the jitter from 0 to below 1, and the next attempt is after that delay.
pub handle_capture_error_delay :
    (now : GoTime) (random : Ratio) (text : Bytes) (w : CaptureWorker)
    → IsRandom random
    → let n = w.state.failure_count in
      let s = (handle_capture_error now random text w).state in
      (s.failure_count ≡ n + 2)
      × (doubled (n + 1) ≤ s.backoff_seconds)
      × (s.backoff_seconds ≤ doubled (n + 1) + doubled (n + 1) / 5)
      × (120 ≤ s.backoff_seconds)
      × (s.next_attempt ≡ now +ℤ seconds s.backoff_seconds)
      × (now +ℤ seconds 120 ≤ℤ s.next_attempt)
unfolding handle_capture_error update_backoff
handle_capture_error_delay now random text w r =
    let n = w.state.failure_count in
    let s = (handle_capture_error now random text w).state in
    let next : n + 1 ≡ suc n = omega arith in
    let more : n + 1 + 1 ≡ suc (n + 1) = omega arith in
    let (least, most) = calculate_backoff_default random _ (n + 1) r more in
    let (_, _, two_minutes) = doubled_bounds n in
    let two_minutes' = subst (λ k. 120 ≤ doubled k) (sym next) two_minutes in
    let enough : 120 ≤ s.backoff_seconds = omega (arith, least, two_minutes') in
    (omega arith, least, most, enough, refl, later now _ enough)
