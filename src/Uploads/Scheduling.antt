-- ===== src/Uploads/Scheduling.antt =====
-- internal/scheduler/upload.go: scheduleUploads, as the steps of the coordinator.
use aviationwx_org_bridge.Prelude.{
  ℕ, ◌-◌, ◌*◌, List, [], ◌∷◌, ◌++◌, Option, none, some, if◌then◌else◌, ltb, leb, ◌==◌, length,
}
use aviationwx_org_bridge.Prelude.Clock.{GoTime, before, unix_milli}
use aviationwx_org_bridge.Files.Bytes.{Bytes, codes, trim_suffix}
use aviationwx_org_bridge.Files.Maps.{lookup, contains_key, delete}
use aviationwx_org_bridge.Queue.Disk.{file_name}
use aviationwx_org_bridge.Queue.Dequeue.{answer, failure, dequeue}
use aviationwx_org_bridge.Uploads.Types.{
  UploadWorker, UploadTask, Uploader, nil, client, Coordinator, idle, visiting, holding, marked,
  withdrawing, file_path,
}

unfoldable pub build_remote_path : Bytes → Bytes → GoTime → Bytes
build_remote_path base id t =
    trim_suffix (if length base == 0 then id else base) (codes "/")
    ++ codes "/"
    ++ file_name (unix_milli t)

-- The start of scheduleUploads: the slots are counted, and the cameras copied.
unfoldable pub begin_pass : UploadWorker → Coordinator
begin_pass w =
    if length w.queue_order == 0
    then idle
    else if leb w.max_concurrent w.active_uploads
    then idle
    else visiting w.queue_order (w.max_concurrent - w.active_uploads)

abbrev pub or_path : Option Bytes → Bytes
or_path none = []
or_path (some p) = p

abbrev pub or_nil : Option Uploader → Uploader
or_nil none = nil
or_nil (some u) = u

-- The oldest image of a camera's queue as a task, unless there is none.
unfoldable pub first_task : Bytes → ℕ → Uploader → UploadWorker → Option UploadTask
first_task id q nil w = none
first_task id q (client c) w = elim (dequeue (w.store q)) [
  | failure e ↦ none
  | answer img ↦ some (record {
    camera_id = id;
    image = img;
    queue = q;
    uploader = client c;
    remote_path = build_remote_path (or_path (lookup id w.remote_paths)) id img.timestamp;
  })
]

-- The task of a camera, unless it was removed, waits or has no uploader or image.
unfoldable pub pick : GoTime → Bytes → UploadWorker → Option UploadTask
pick now id w = elim (lookup id w.queues) [
  | none ↦ none
  | some q ↦ elim (lookup id w.camera_failures) [
    | none ↦ none
    | some s ↦
        if before now s.backoff_until
        then none
        else first_task id q (or_nil (lookup id w.uploaders)) w
  ]
]

abbrev pub hold : Option UploadTask → List Bytes → ℕ → Coordinator
hold none ids slots = visiting ids slots
hold (some t) ids slots = holding t ids slots

-- One round of the loop over the cameras, up to the image it gets.
unfoldable pub visit : GoTime → UploadWorker → Coordinator → Coordinator
visit now w idle = idle
visit now w (visiting [] slots) = idle
visit now w (visiting (id ∷ ids) slots) =
    if slots == 0 then idle else hold (pick now id w) ids slots
visit now w (holding t ids slots) = holding t ids slots
visit now w (marked t ids slots) = marked t ids slots
visit now w (withdrawing t ids slots) = withdrawing t ids slots

-- The check for a duplicate and the mark, under one lock.
unfoldable pub offer : UploadTask → List Bytes → ℕ → UploadWorker → UploadWorker
offer t ids slots w =
    if contains_key (file_path t) w.in_flight
    then record w { coordinator = visiting ids slots }
    else record w { in_flight = file_path t ∷ w.in_flight; coordinator = marked t ids slots }

-- The send, unless the channel is full.
unfoldable pub send : UploadTask → List Bytes → ℕ → UploadWorker → UploadWorker
send t ids slots w =
    if ltb (length w.channel) (w.max_concurrent * 2)
    then record w { channel = w.channel ++ t ∷ []; coordinator = visiting ids (slots - 1) }
    else record w { coordinator = withdrawing t ids slots }

-- The file of a task that was not sent is no longer in flight.
unfoldable pub withdraw : UploadTask → List Bytes → ℕ → UploadWorker → UploadWorker
withdraw t ids slots w = record w {
  in_flight = delete (file_path t) w.in_flight;
  coordinator = visiting ids slots;
}

-- The next step of the coordinator with a task.
unfoldable pub offer_held : Coordinator → UploadWorker → UploadWorker
offer_held idle w = w
offer_held (visiting ids slots) w = w
offer_held (holding t ids slots) w = offer t ids slots w
offer_held (marked t ids slots) w = send t ids slots w
offer_held (withdrawing t ids slots) w = withdraw t ids slots w

abbrev pub on_idle : Coordinator → Coordinator → Coordinator
on_idle idle next = next
on_idle (visiting ids slots) next = visiting ids slots
on_idle (holding t ids slots) next = holding t ids slots
on_idle (marked t ids slots) next = marked t ids slots
on_idle (withdrawing t ids slots) next = withdrawing t ids slots
