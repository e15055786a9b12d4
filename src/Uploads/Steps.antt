-- ===== src/Uploads/Steps.antt =====
-- internal/scheduler/upload.go: uploadWorkerRoutine and uploadWithRetry as the steps of the goroutines,
-- and all steps, which interleave.
use aviationwx_org_bridge.Prelude.{
  not, ℕ, zero, suc, ◌+◌, ◌-◌, Bool, true, false, List, [], ◌∷◌, Option, none, some, if◌then◌else◌,
  leb, ◌==◌, length,
}
use aviationwx_org_bridge.Prelude.Clock.{GoTime}
use aviationwx_org_bridge.Files.Bytes.{Bytes}
use aviationwx_org_bridge.Files.Maps.{delete}
use aviationwx_org_bridge.Queue.Types.{Queue}
use aviationwx_org_bridge.Queue.Upload.{mark_uploaded}
use aviationwx_org_bridge.Uploads.Types.{
  UploadWorker, UploadTask, UploadFailureState, Uploader, taken, Late, late, file_path, add_queue,
  remove_queue,
}
use aviationwx_org_bridge.Uploads.Turns.{
  Turned, turn, to_counted, to_uploading, to_cleaning, to_released, to_free,
}
use aviationwx_org_bridge.Uploads.Failures.{
  Ending, returned, panicked, change_failures, is_auth_error, record_success, record_failure,
  handle_auth_failure,
}
use aviationwx_org_bridge.Uploads.Scheduling.{begin_pass, visit, offer_held, on_idle}

-- A worker goroutine that is free receives the first task.
unfoldable pub start_task : List UploadTask → UploadWorker → UploadWorker
start_task [] w = w
start_task (t ∷ ts) w =
    if leb w.max_concurrent (length w.running)
    then w
    else record w { channel = ts; running = taken t ∷ w.running }

-- How uploadWithRetry ends: the file cannot be read, the attempts end with an error or without, the
-- upload panics, or it takes too long. The flag tells whether the second attempt had begun.
pub data Outcome : Type 0 where
  unreadable : Bytes → Outcome
  attempted : Option Bytes → Option Bytes → Outcome
  crashed timed_out : Bool → Bytes → Outcome

abbrev pub count_retry : Bool → UploadWorker → UploadWorker
count_retry retried w =
    if retried
    then record w { stats = record (w.stats) { uploads_retried = w.stats.uploads_retried + 1 } }
    else w

-- handleAuthFailure follows recordFailure if that returned, for an error of authentication.
unfoldable pub then_auth : GoTime → Bytes → Bytes → Ending × UploadWorker → UploadWorker
then_auth now id err (panicked, w) = w
then_auth now id err (returned, w) =
    if is_auth_error err then (handle_auth_failure now id w).1 else w

unfoldable pub count_failure : GoTime → Bytes → Bytes → UploadWorker → UploadWorker
count_failure now id err w = then_auth now id err (record_failure now id err w)

-- Whether the upload succeeded.
unfoldable pub conclude : GoTime → Bytes → Outcome → UploadWorker → Bool × UploadWorker
conclude now id (unreadable err) w = (false, (record_failure now id err w).1)
conclude now id (attempted none second) w = (true, record_success now w)
conclude now id (attempted (some err) none) w =
    if is_auth_error err
    then (false, count_failure now id err w)
    else (true, record_success now (count_retry true w))
conclude now id (attempted (some err) (some err')) w =
    if is_auth_error err
    then (false, count_failure now id err w)
    else (false, count_failure now id err' (count_retry true w))
conclude now id (crashed retried err) w = (false, count_failure now id err (count_retry retried w))
conclude now id (timed_out retried err) w =
    (false, (record_failure now id err (count_retry retried w)).1)

abbrev no_consecutive : UploadFailureState → UploadFailureState
no_consecutive s = record s { consecutive_failures = 0 }

abbrev pub set_queue : ℕ → Queue → (ℕ → Queue) → ℕ → Queue
set_queue a q store b = if b == a then q else store b

-- The end of the upload of a task, before the deferred cleanup.
unfoldable pub settle_upload : UploadTask → Bool × UploadWorker → UploadWorker
settle_upload t (false, w) = w
settle_upload t (true, w) =
    (change_failures no_consecutive t.camera_id (record w {
      store = set_queue t.queue (mark_uploaded t.image (w.store t.queue)).1 w.store;
    })).1

-- A goroutine raises activeUploads.
unfoldable pub count_active : Turned → UploadWorker → UploadWorker
count_active none w = w
count_active (some (t, rs)) w = record w { active_uploads = w.active_uploads + 1; running = rs }

-- uploadWithRetry begins.
unfoldable pub begin_upload : GoTime → Turned → UploadWorker → UploadWorker
begin_upload now none w = w
begin_upload now (some (t, rs)) w = record w {
  stats = record (w.stats) { uploads_total = w.stats.uploads_total + 1; last_upload_time = now };
  running = rs;
}

-- Nothing stops the goroutine of an upload that takes too long.
abbrev pub left_behind : Outcome → UploadTask → List Late → List Late
left_behind (timed_out retried err) t ls = late retried t ∷ ls
left_behind _ t ls = ls

-- The end of uploadWithRetry, with what its outcome does to the records, and MarkUploaded.
unfoldable pub complete : GoTime → Outcome → Turned → UploadWorker → UploadWorker
complete now outcome none w = w
complete now outcome (some (t, rs)) w =
    record (settle_upload t (conclude now t.camera_id outcome w)) {
      running = rs;
      overdue = left_behind outcome t w.overdue;
    }

unfoldable pub clean : Turned → UploadWorker → UploadWorker
clean none w = w
clean (some (t, rs)) w = record w { in_flight = delete (file_path t) w.in_flight; running = rs }

unfoldable pub count_done : Turned → UploadWorker → UploadWorker
count_done none w = w
count_done (some (t, rs)) w = record w { active_uploads = w.active_uploads - 1; running = rs }

-- The i-th upload that is overdue begins its second attempt, and ends; nobody reads its result.
unfoldable pub retry_late : ℕ → List Late → List Late
retry_late i [] = []
retry_late zero (late retried t ∷ ls) = late true t ∷ ls
retry_late (suc i) (l ∷ ls) = l ∷ retry_late i ls

abbrev pub first_retry : ℕ → List Late → Bool
first_retry i [] = false
first_retry zero (late retried t ∷ ls) = not retried
first_retry (suc i) (l ∷ ls) = first_retry i ls

unfoldable pub end_late : ℕ → List Late → List Late
end_late i [] = []
end_late zero (l ∷ ls) = ls
end_late (suc i) (l ∷ ls) = l ∷ end_late i ls

-- The steps; those of a worker goroutine name it. `changes` stands for whatever else happens to a queue.
pub data Step : Type 0 where
  ticks offers receives : Step
  visits : GoTime → Step
  counts : ℕ → Step
  begins : ℕ → GoTime → Step
  completes : ℕ → GoTime → Outcome → Step
  cleans uncounts : ℕ → Step
  retries_late ends_late : ℕ → Step
  adds : Bytes → ℕ → Bytes → Uploader → Step
  removes : Bytes → Step
  changes : ℕ → Queue → Step

unfoldable pub step : Step → UploadWorker → UploadWorker
step ticks w = record w { coordinator = on_idle w.coordinator (begin_pass w) }
step (visits now) w = record w { coordinator = visit now w w.coordinator }
step offers w = offer_held w.coordinator w
step receives w = start_task w.channel w
step (counts i) w = count_active (turn to_counted i w.running) w
step (begins i now) w = begin_upload now (turn to_uploading i w.running) w
step (completes i now outcome) w = complete now outcome (turn to_cleaning i w.running) w
step (cleans i) w = clean (turn to_released i w.running) w
step (uncounts i) w = count_done (turn to_free i w.running) w
step (retries_late i) w = record (count_retry (first_retry i w.overdue) w) {
  overdue = retry_late i w.overdue;
}
step (ends_late i) w = record w { overdue = end_late i w.overdue }
step (adds id q path uploader) w = add_queue id q path uploader w
step (removes id) w = remove_queue id w
step (changes a q) w = record w { store = set_queue a q w.store }

unfoldable pub run : List Step → UploadWorker → UploadWorker
run [] w = w
run (s ∷ ss) w = run ss (step s w)
