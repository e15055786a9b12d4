-- ===== src/Uploads/Tests.antt =====
-- The theorems on internal/scheduler/upload.go at concrete workers.
use aviationwx_org_bridge.Prelude.{
  ℕ, ◌+◌, ◌*◌, ◌≤◌, ◌≡◌, refl, false, List, [], ◌∷◌, none, some, if◌then◌else◌, leb, length,
}
use aviationwx_org_bridge.Prelude.Int.{pos, ◌+ℤ◌}
use aviationwx_org_bridge.Prelude.Clock.{second, seconds}
use aviationwx_org_bridge.Files.Bytes.{Bytes, codes, bytes_eq}
use aviationwx_org_bridge.Files.Maps.{lookup, occurrences}
use aviationwx_org_bridge.Queue.Types.{Queue}
use aviationwx_org_bridge.Queue.Tests.{three_images}
use aviationwx_org_bridge.Uploads.Types.{
  UploadWorker, UploadFailureState, client, new_upload_worker, add_queue, no_failures,
}
use aviationwx_org_bridge.Uploads.Failures.{
  returned, is_auth_error, contains, contains_any, record_failure,
}
use aviationwx_org_bridge.Uploads.Steps.{
  Step, ticks, offers, visits, receives, counts, begins, completes, cleans, uncounts, adds,
  attempted, conclude, run,
}
use aviationwx_org_bridge.Uploads.Tracking.{tasks_of}
use aviationwx_org_bridge.Uploads.Counting.{counted_uploads}
use aviationwx_org_bridge.Uploads.View.{view}
use aviationwx_org_bridge.Uploads.Flight.{run_once}
use aviationwx_org_bridge.Uploads.Backoffs.{
  failure_wait, record_failure_wait, conclude_auth_failure,
}

abbrev one_queue : ℕ → Queue
one_queue a = three_images

abbrev north : Bytes
north = codes "north"

-- One camera is added, its oldest image is taken and uploaded, and the next one is taken.
abbrev upload_and_next : List Step
upload_and_next =
    adds north 0 [] (client 1)
    ∷ ticks
    ∷ visits (pos 5)
    ∷ offers
    ∷ offers
    ∷ receives
    ∷ counts 0
    ∷ begins 0 (pos 6)
    ∷ completes 0 (pos 7) (attempted none none)
    ∷ cleans 0
    ∷ uncounts 0
    ∷ ticks
    ∷ visits (pos 8)
    ∷ offers
    ∷ offers
    ∷ []

run_once_example :
    let w = run upload_and_next (new_upload_worker (pos 1) 0 0 0 one_queue) in
    let p = codes "north/1735142730001.jpg" in
    let tasks = tasks_of p (view w) in
    (tasks ≤ 1)
    × (occurrences p w.in_flight ≡ tasks)
    × (w.active_uploads ≡ counted_uploads w.running)
    × (w.active_uploads ≤ w.max_concurrent)
    × (length w.running ≤ w.max_concurrent)
    × (length w.channel ≤ w.max_concurrent * 2)
run_once_example =
    run_once (pos 1) 0 0 0 one_queue upload_and_next (codes "north/1735142730001.jpg")

abbrev with_north : UploadWorker
with_north = add_queue north 0 [] (client 1) (new_upload_worker (pos 1) 0 0 0 one_queue)

record_failure_wait_example :
    let (ending, w') = record_failure (pos 9) north (codes "timeout") with_north in
    let n = 0 + 1 in
    (ending ≡ returned)
    × (w'.stats.uploads_failed ≡ 0 + 1)
    × ((s' : UploadFailureState) × (lookup north w'.camera_failures ≡ some s')
        × (s'.consecutive_failures ≡ n)
        × (s'.backoff_until
            ≡ (if leb 4 n then pos 9 +ℤ seconds (failure_wait n) else no_failures.backoff_until)))
unfolding new_upload_worker add_queue lookup bytes_eq
record_failure_wait_example =
    record_failure_wait (pos 9) north (codes "timeout") with_north no_failures refl

conclude_auth_failure_example :
    let (success, w') =
      conclude (pos 9) north (attempted (some (codes "Login failed")) none) with_north in
    (success ≡ false)
    × (w'.stats.uploads_failed ≡ 0 + 2)
    × (w'.stats.auth_failures ≡ 0 + 1)
    × (w'.stats.uploads_retried ≡ 0)
    × ((s' : UploadFailureState) × (lookup north w'.camera_failures ≡ some s')
        × (s'.consecutive_failures ≡ 0 + 2)
        × (s'.backoff_until ≡ pos 9 +ℤ pos (60 * second)))
unfolding new_upload_worker add_queue lookup bytes_eq is_auth_error contains_any contains
conclude_auth_failure_example =
    conclude_auth_failure (pos 9) north (codes "Login failed") none with_north no_failures refl refl
