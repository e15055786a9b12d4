-- ===== src/Uploads/Tracking.antt =====
-- The set of files in flight against the tasks, internal/scheduler/upload.go, and the steps of the worker
-- goroutines.
use aviationwx_org_bridge.Prelude.{
  ℕ, suc, ◌+◌, ◌*◌, ◌≤◌, ◌≡◌, inl, inr, List, [], ◌∷◌, none, some, arith, Bool-cases, length, leb,
  ap,
}
use aviationwx_org_bridge.Prelude.Clock.{GoTime}
use aviationwx_org_bridge.Files.Bytes.{Bytes}
use aviationwx_org_bridge.Files.Maps.{occurrences, occurrences-delete}
use aviationwx_org_bridge.Uploads.Types.{
  UploadWorker, UploadTask, Running, file_path, Coordinator, idle, visiting, holding, marked,
  withdrawing,
}
use aviationwx_org_bridge.Uploads.Turns.{Turned}
use aviationwx_org_bridge.Uploads.Steps.{start_task, count_active, begin_upload, clean, count_done}
use aviationwx_org_bridge.Uploads.View.{View, view}
use aviationwx_org_bridge.Uploads.Counting.{
  Changed, changes_nothing, counted_uploads, lowers, raises, releases, sent_paths, taken_paths,
}

-- The file of the coordinator's task, between its mark and the send.
abbrev pub marked_paths : Coordinator → List Bytes
marked_paths idle = []
marked_paths (visiting ids slots) = []
marked_paths (holding t ids slots) = []
marked_paths (marked t ids slots) = file_path t ∷ []
marked_paths (withdrawing t ids slots) = file_path t ∷ []

-- The tasks for a file: those that the coordinator has marked, sent, and a goroutine has received.
abbrev pub tasks_of : Bytes → View → ℕ
tasks_of p v =
    occurrences p (marked_paths v.coordinator)
    + occurrences p (sent_paths v.channel)
    + occurrences p (taken_paths v.running)

-- A file is in flight exactly if one task for it is marked, sent or taken, and then only one is; activeUploads
-- counts the goroutines between its two changes, and there are no more of all than configured.
pub record Tracked (v : View) : Type 0 where
  pub once : (p : Bytes) → occurrences p v.in_flight ≡ tasks_of p v
  pub single : (p : Bytes) → occurrences p v.in_flight ≤ 1
  pub active : v.active_uploads ≡ counted_uploads v.running
  pub free : length v.running ≤ v.max_concurrent
  pub room : length v.channel ≤ v.max_concurrent * 2

-- Other goroutines with the same files and counts.
pub same-Tracked :
    (v : View) (t : UploadTask) (rs : List Running)
    → ((p : Bytes) → Changed changes_nothing p v.running (some (t, rs)))
    → Tracked v
    → Tracked (record v { running = rs })
same-Tracked v t rs c k = record {
  once = λ p. omega (arith, k.once p, (c p).0);
  single = k.single;
  active = omega (arith, k.active, (c []).1);
  free = omega (arith, k.free, (c []).2);
  room = k.room;
}

pub start_task-Tracked :
    (ts : List UploadTask) (w : UploadWorker)
    → w.channel ≡ ts
    → Tracked (view w)
    → Tracked (view (start_task ts w))
unfolding start_task occurrences sent_paths taken_paths counted_uploads
start_task-Tracked [] w e k = k
start_task-Tracked (t ∷ ts) w e k = elim (Bool-cases (leb w.max_concurrent (length w.running))) [
  | inl busy ↦ rw busy k
  | inr free ↦
      let lt : suc (length w.running) ≤ w.max_concurrent = ground (arith, free) in
      let sent : (p : Bytes)
          → occurrences p (sent_paths w.channel) ≡ occurrences p (sent_paths (t ∷ ts)) =
        λ p. ap (λ c. occurrences p (sent_paths c)) e in
      let fewer : length w.channel ≡ suc (length ts) = ap (length {0}) e in
      rw free (record {
        once = λ p. ground (arith, k.once p, sent p);
        single = k.single;
        active = omega (arith, k.active);
        free = lt;
        room = omega (arith, k.room, fewer);
      })
]

pub count_active-Tracked :
    (o : Turned) (w : UploadWorker)
    → ((p : Bytes) → Changed raises p w.running o)
    → Tracked (view w)
    → Tracked (view (count_active o w))
unfolding count_active
count_active-Tracked none w c k = k
count_active-Tracked (some (t, rs)) w c k = record {
  once = λ p. omega (arith, k.once p, (c p).0);
  single = k.single;
  active = omega (arith, k.active, (c []).1);
  free = omega (arith, k.free, (c []).2);
  room = k.room;
}

pub begin_upload-Tracked :
    (now : GoTime) (o : Turned) (w : UploadWorker)
    → ((p : Bytes) → Changed changes_nothing p w.running o)
    → Tracked (view w)
    → Tracked (view (begin_upload now o w))
unfolding begin_upload
begin_upload-Tracked now none w c k = k
begin_upload-Tracked now (some (t, rs)) w c k = same-Tracked (view w) t rs c k

pub clean-Tracked :
    (o : Turned) (w : UploadWorker)
    → ((p : Bytes) → Changed (releases p) p w.running o)
    → Tracked (view w)
    → Tracked (view (clean o w))
unfolding clean
clean-Tracked none w c k = k
clean-Tracked (some (t, rs)) w c k = record {
  once = λ p.
      ground (arith, k.once p, k.single p, c p, occurrences-delete p (file_path t) w.in_flight);
  single = λ p. ground (arith, k.single p, occurrences-delete p (file_path t) w.in_flight);
  active = omega (arith, k.active, (c []).1);
  free = omega (arith, k.free, (c []).2);
  room = k.room;
}

pub count_done-Tracked :
    (o : Turned) (w : UploadWorker)
    → ((p : Bytes) → Changed lowers p w.running o)
    → Tracked (view w)
    → Tracked (view (count_done o w))
unfolding count_done
count_done-Tracked none w c k = k
count_done-Tracked (some (t, rs)) w c k = record {
  once = λ p. omega (arith, k.once p, (c p).0);
  single = k.single;
  active = omega (arith, k.active, (c []).1);
  free = omega (arith, k.free, (c []).2);
  room = k.room;
}
