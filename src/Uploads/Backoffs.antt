-- ===== src/Uploads/Backoffs.antt =====
-- How long internal/scheduler/upload.go waits after failures, and how it counts them.
use aviationwx_org_bridge.Prelude.{
  ℕ, ◌+◌, ◌*◌, ◌/◌, ◌≤◌, ◌≡◌, refl, true, false, Option, none, some, arith, if◌then◌else◌, ltb, leb,
  min, ap,
}
use aviationwx_org_bridge.Prelude.Int.{pos, ◌+ℤ◌}
use aviationwx_org_bridge.Prelude.Clock.{GoTime, seconds, second}
use aviationwx_org_bridge.Files.Bytes.{Bytes}
use aviationwx_org_bridge.Files.Maps.{lookup, insert, lookup-insert_self}
use aviationwx_org_bridge.Uploads.Types.{UploadWorker, UploadFailureState}
use aviationwx_org_bridge.Uploads.Failures.{
  returned, change_failures, is_auth_error, record_failure, handle_auth_failure, after_failure,
  after_auth_failure, max_upload_seconds,
}
use aviationwx_org_bridge.Uploads.Steps.{attempted, conclude, count_failure, then_auth}

-- An upload may take from 3 to 15 minutes, more for a larger file, and at a steady 5 KB a second any
-- file that can be sent in 13 and a half minutes is, with 90 seconds to spare.
pub max_upload_seconds_bounds :
    (size : ℕ)
    → (180 ≤ max_upload_seconds size)
      × (max_upload_seconds size ≤ 900)
      × (size ≤ 810 * 5120 → size / 5120 + 90 ≤ max_upload_seconds size)
      × ((more : ℕ) → size ≤ more → max_upload_seconds size ≤ max_upload_seconds more)
unfolding max_upload_seconds
max_upload_seconds_bounds size =
    (ground arith, ground arith, λ h. ground arith, λ more h. ground arith)

change_failures_known :
    (f : UploadFailureState → UploadFailureState) (id : Bytes) (w : UploadWorker)
    (s : UploadFailureState)
    → lookup id w.camera_failures ≡ some s
    → change_failures f id w
      ≡ (returned, record w { camera_failures = insert id (f s) w.camera_failures })
unfolding change_failures
change_failures_known f id w s h = rw (h, change_failures) refl

-- recordFailure of a known camera.
abbrev recorded : GoTime → Bytes → Bytes → UploadFailureState → UploadWorker → UploadWorker
recorded now id err s w = record w {
  camera_failures = insert id (after_failure now s) w.camera_failures;
  stats = record (w.stats) {
    uploads_failed = w.stats.uploads_failed + 1;
    last_failure_time = now;
    last_failure_reason = err;
  };
}

record_failure_known :
    (now : GoTime) (id err : Bytes) (w : UploadWorker) (s : UploadFailureState)
    → lookup id w.camera_failures ≡ some s
    → record_failure now id err w ≡ (returned, recorded now id err s w)
unfolding record_failure
record_failure_known now id err w s h = change_failures_known (after_failure now) id _ s h

-- The waiting time in seconds that the n-th failure in a row starts, from the fourth on.
abbrev pub failure_wait : ℕ → ℕ
failure_wait n = min 30 (5 * n)

after_failure_wait :
    (now : GoTime) (s : UploadFailureState)
    → let n = s.consecutive_failures + 1 in
      (after_failure now s).backoff_until
      ≡ (if leb 4 n then now +ℤ seconds (failure_wait n) else s.backoff_until)
unfolding after_failure
after_failure_wait now s =
    let n = s.consecutive_failures + 1 in
    let wait : (if ltb 30 (n * 5) then 30 else n * 5) ≡ min 30 (5 * n) = ground arith in
    rw wait (ground arith)

-- recordFailure counts the failure of a known camera once. Up to the third in a row the camera does
-- not wait; the fourth makes it wait 20 seconds, the fifth 25, and every later one 30.
pub record_failure_wait :
    (now : GoTime) (id err : Bytes) (w : UploadWorker) (s : UploadFailureState)
    → lookup id w.camera_failures ≡ some s
    → let (ending, w') = record_failure now id err w in
      let n = s.consecutive_failures + 1 in
      (ending ≡ returned)
      × (w'.stats.uploads_failed ≡ w.stats.uploads_failed + 1)
      × ((s' : UploadFailureState) × (lookup id w'.camera_failures ≡ some s')
          × (s'.consecutive_failures ≡ n)
          × (s'.backoff_until
              ≡ (if leb 4 n then now +ℤ seconds (failure_wait n) else s.backoff_until)))
unfolding after_failure
record_failure_wait now id err w s h = rw (record_failure_known now id err w s h) (
  refl,
  refl,
  (
    after_failure now s,
    lookup-insert_self id (after_failure now s) w.camera_failures,
    refl,
    after_failure_wait now s,
  ),
)

-- handleAuthFailure of a known camera.
abbrev blocked : GoTime → Bytes → UploadFailureState → UploadWorker → UploadWorker
blocked now id s w = record w {
  camera_failures = insert id (after_auth_failure now w.auth_backoff s) w.camera_failures;
  stats = record (w.stats) {
    auth_failures = w.stats.auth_failures + 1;
    uploads_failed = w.stats.uploads_failed + 1;
    last_failure_time = now;
  };
}

count_failure_auth :
    (now : GoTime) (id err : Bytes) (w : UploadWorker) (s : UploadFailureState)
    → is_auth_error err ≡ true
    → lookup id w.camera_failures ≡ some s
    → count_failure now id err w ≡ blocked now id (after_failure now s) (recorded now id err s w)
unfolding count_failure then_auth handle_auth_failure
count_failure_auth now id err w s auth h =
    rw (record_failure_known now id err w s h, auth)
      (ap (λ r. r.1)
        (change_failures_known (after_auth_failure now w.auth_backoff) id _ (after_failure now s)
          (lookup-insert_self id (after_failure now s) w.camera_failures)))

conclude_auth :
    (now : GoTime) (id err : Bytes) (second : Option Bytes) (w : UploadWorker)
    → is_auth_error err ≡ true
    → conclude now id (attempted (some err) second) w ≡ (false, count_failure now id err w)
unfolding conclude
conclude_auth now id err none w auth = rw auth refl
conclude_auth now id err (some e) w auth = rw auth refl

-- A failed login, however often it is tried, makes the camera wait for the whole backoff of
-- authentication from then on; it is counted twice, both as failed uploads and in a row.
pub conclude_auth_failure :
    (now : GoTime) (id err : Bytes) (second : Option Bytes) (w : UploadWorker)
    (s : UploadFailureState)
    → is_auth_error err ≡ true
    → lookup id w.camera_failures ≡ some s
    → let (success, w') = conclude now id (attempted (some err) second) w in
      (success ≡ false)
      × (w'.stats.uploads_failed ≡ w.stats.uploads_failed + 2)
      × (w'.stats.auth_failures ≡ w.stats.auth_failures + 1)
      × (w'.stats.uploads_retried ≡ w.stats.uploads_retried)
      × ((s' : UploadFailureState) × (lookup id w'.camera_failures ≡ some s')
          × (s'.consecutive_failures ≡ s.consecutive_failures + 2)
          × (s'.backoff_until ≡ now +ℤ pos w.auth_backoff))
conclude_auth_failure now id err second w s auth h =
    let t = after_failure now s in
    let records = insert id t w.camera_failures in
    rw (conclude_auth now id err second w auth, count_failure_auth now id err w s auth h)
      (
        refl,
        omega arith,
        refl,
        refl,
        (
          after_auth_failure now w.auth_backoff t,
          lookup-insert_self id (after_auth_failure now w.auth_backoff t) records,
          unfold after_auth_failure after_failure in omega arith,
          unfold after_auth_failure in refl,
        ),
      )
