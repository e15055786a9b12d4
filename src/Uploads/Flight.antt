-- ===== src/Uploads/Flight.antt =====
-- No file of internal/scheduler/upload.go has two tasks, in any interleaving of the coordinator, the
-- upload goroutines and other changes. An upload whose deadline has passed is no task: its goroutine
-- goes on, and may still write when the file is uploaded again.
use aviationwx_org_bridge.Prelude.{
  Option, Bool-cases, inl, inr, ◌==◌, leb, ℕ, ◌*◌, ◌≤◌, ◌≡◌, refl, sym, List, [], ◌∷◌, none, some,
  arith, length, subst,
}
use aviationwx_org_bridge.Prelude.Clock.{GoTime}
use aviationwx_org_bridge.Files.Bytes.{Bytes}
use aviationwx_org_bridge.Files.Maps.{occurrences}
use aviationwx_org_bridge.Queue.Types.{Queue}
use aviationwx_org_bridge.Uploads.Types.{
  UploadWorker, UploadTask, Coordinator, idle, visiting, holding, marked, withdrawing,
  new_upload_worker, add_queue, remove_queue,
}
use aviationwx_org_bridge.Uploads.Turns.{
  Turned, turn, to_counted, to_uploading, to_cleaning, to_released, to_free,
}
use aviationwx_org_bridge.Uploads.Steps.{
  Step, ticks, visits, offers, receives, counts, begins, completes, cleans, uncounts, retries_late,
  ends_late, adds, removes, changes, Outcome, first_retry, step, run, complete,
}
use aviationwx_org_bridge.Uploads.Scheduling.{begin_pass, on_idle, hold, pick, visit, offer_held}
use aviationwx_org_bridge.Uploads.View.{view, view-settle_upload, view-count_retry}
use aviationwx_org_bridge.Uploads.Tracking.{
  Tracked, marked_paths, tasks_of, same-Tracked, start_task-Tracked, count_active-Tracked,
  begin_upload-Tracked, clean-Tracked, count_done-Tracked,
}
use aviationwx_org_bridge.Uploads.Sending.{
  send-Tracked, withdraw-Tracked, moved-Tracked, offer-Tracked,
}
use aviationwx_org_bridge.Uploads.Counting.{
  sent_paths, taken_paths, counted_uploads, counted_uploads_bound, Changed, changes_nothing,
  to_counted-Changed, to_uploading-Changed, to_cleaning-Changed, to_released-Changed,
  to_free-Changed,
}

complete-Tracked :
    (now : GoTime) (outcome : Outcome) (o : Turned) (w : UploadWorker)
    → ((p : Bytes) → Changed changes_nothing p w.running o)
    → Tracked (view w)
    → Tracked (view (complete now outcome o w))
unfolding complete
complete-Tracked now outcome none w same k = k
complete-Tracked now outcome (some (t, rs)) w same k =
    subst (λ v. Tracked (record v { running = rs }))
      (sym (view-settle_upload now t t.camera_id outcome w)) (same-Tracked (view w) t rs same k)

offer_held-Tracked :
    (c : Coordinator) (w : UploadWorker)
    → w.coordinator ≡ c
    → Tracked (view w)
    → Tracked (view (offer_held c w))
unfolding offer_held
offer_held-Tracked idle w at k = k
offer_held-Tracked (visiting ids slots) w at k = k
offer_held-Tracked (holding t ids slots) w at k = offer-Tracked t ids slots w at k
offer_held-Tracked (marked t ids slots) w at k = send-Tracked t ids slots w at k
offer_held-Tracked (withdrawing t ids slots) w at k = withdraw-Tracked t ids slots w at k

-- Neither a new pass nor a round up to an image marks a file.
begin_pass_unmarked : (w : UploadWorker) → marked_paths (begin_pass w) ≡ []
unfolding begin_pass
begin_pass_unmarked w = elim (Bool-cases (length w.queue_order == 0)) [
  | inl empty ↦ rw empty refl
  | inr more ↦ rw more (elim (Bool-cases (leb w.max_concurrent w.active_uploads)) [
    | inl busy ↦ rw busy refl
    | inr free ↦ rw free refl
  ])
]

marked_paths-on_idle :
    (c next : Coordinator) → marked_paths next ≡ [] → marked_paths (on_idle c next) ≡ marked_paths c
marked_paths-on_idle idle next h = h
marked_paths-on_idle (visiting ids slots) next h = refl
marked_paths-on_idle (holding t ids slots) next h = refl
marked_paths-on_idle (marked t ids slots) next h = refl
marked_paths-on_idle (withdrawing t ids slots) next h = refl

hold_unmarked :
    (o : Option UploadTask) (ids : List Bytes) (slots : ℕ) → marked_paths (hold o ids slots) ≡ []
hold_unmarked none ids slots = refl
hold_unmarked (some t) ids slots = refl

marked_paths-visit :
    (now : GoTime) (w : UploadWorker) (c : Coordinator)
    → marked_paths (visit now w c) ≡ marked_paths c
unfolding visit
marked_paths-visit now w idle = refl
marked_paths-visit now w (visiting [] slots) = refl
marked_paths-visit now w (visiting (id ∷ ids) slots) = elim (Bool-cases (slots == 0)) [
  | inl over ↦ rw over refl
  | inr left ↦ rw left (hold_unmarked (pick now id w) ids slots)
]
marked_paths-visit now w (holding t ids slots) = refl
marked_paths-visit now w (marked t ids slots) = refl
marked_paths-visit now w (withdrawing t ids slots) = refl

step-Tracked : (s : Step) (w : UploadWorker) → Tracked (view w) → Tracked (view (step s w))
unfolding step add_queue remove_queue
step-Tracked ticks w k =
    moved-Tracked (view w) _
      (marked_paths-on_idle w.coordinator (begin_pass w) (begin_pass_unmarked w)) k
step-Tracked (visits now) w k = moved-Tracked (view w) _ (marked_paths-visit now w w.coordinator) k
step-Tracked offers w k = offer_held-Tracked w.coordinator w refl k
step-Tracked receives w k = start_task-Tracked w.channel w refl k
step-Tracked (counts i) w k =
    count_active-Tracked (turn to_counted i w.running) w (λ p. to_counted-Changed p i w.running) k
step-Tracked (begins i now) w k =
    begin_upload-Tracked now (turn to_uploading i w.running) w
      (λ p. to_uploading-Changed p i w.running) k
step-Tracked (completes i now outcome) w k =
    complete-Tracked now outcome (turn to_cleaning i w.running) w
      (λ p. to_cleaning-Changed p i w.running) k
step-Tracked (cleans i) w k =
    clean-Tracked (turn to_released i w.running) w (λ p. to_released-Changed p i w.running) k
step-Tracked (uncounts i) w k =
    count_done-Tracked (turn to_free i w.running) w (λ p. to_free-Changed p i w.running) k
step-Tracked (retries_late i) w k =
    subst Tracked (sym (view-count_retry (first_retry i w.overdue) w)) k
step-Tracked (ends_late i) w k = k
step-Tracked (adds id q path uploader) w k = k
step-Tracked (removes id) w k = k
step-Tracked (changes a q) w k = k

run-Tracked : (ss : List Step) (w : UploadWorker) → Tracked (view w) → Tracked (view (run ss w))
unfolding run
run-Tracked [] w k = k
run-Tracked (s ∷ ss) w k = run-Tracked ss (step s w) (step-Tracked s w k)

new-Tracked :
    (now : GoTime) (max_concurrent catchup_threshold auth_backoff : ℕ) (store : ℕ → Queue)
    → Tracked (view (new_upload_worker now max_concurrent catchup_threshold auth_backoff store))
unfolding new_upload_worker occurrences sent_paths taken_paths counted_uploads
new-Tracked now max_concurrent catchup_threshold auth_backoff store = record {
  once = λ p. refl;
  single = λ p. omega arith;
  active = refl;
  free = omega arith;
  room = omega arith;
}

-- From a new worker on, in every interleaving of steps, a step for each change that the coordinator or a
-- worker goroutine makes of the files in flight, the channel or activeUploads: each file has at most one task
-- that is marked, sent or received and its file not yet deleted from the files in flight, and is in flight exactly if it has one; activeUploads is the number of goroutines
-- between their increment and their decrement; these, the goroutines with a task and the tasks that wait
-- are at most as many as configured. Uploads past their deadline have no task.
pub run_once :
    (now : GoTime) (max_concurrent catchup_threshold auth_backoff : ℕ) (store : ℕ → Queue)
    (ss : List Step) (p : Bytes)
    → let w = run ss (new_upload_worker now max_concurrent catchup_threshold auth_backoff store) in
      let tasks = tasks_of p (view w) in
      (tasks ≤ 1)
      × (occurrences p w.in_flight ≡ tasks)
      × (w.active_uploads ≡ counted_uploads w.running)
      × (w.active_uploads ≤ w.max_concurrent)
      × (length w.running ≤ w.max_concurrent)
      × (length w.channel ≤ w.max_concurrent * 2)
run_once now max_concurrent catchup_threshold auth_backoff store ss p =
    let w = new_upload_worker now max_concurrent catchup_threshold auth_backoff store in
    let k =
      run-Tracked ss w (new-Tracked now max_concurrent catchup_threshold auth_backoff store) in
    (
      omega (arith, k.once p, k.single p),
      k.once p,
      k.active,
      omega (arith, k.active, k.free, counted_uploads_bound (run ss w).running),
      k.free,
      k.room,
    )
