-- ===== src/Uploads/Types.antt =====
-- internal/scheduler/upload.go: the upload worker, its tasks and its failure records.
use aviationwx_org_bridge.Prelude.{
  Bool, ℕ, ◌+◌, ◌-◌, ◌*◌, ◌/◌, List, [], ◌∷◌, ◌++◌, ◌==◌, if◌then◌else◌,
}
use aviationwx_org_bridge.Prelude.Int.{ℤ, pos, negsuc}
use aviationwx_org_bridge.Prelude.Clock.{GoTime, zero_time, second}
use aviationwx_org_bridge.Files.Bytes.{Bytes, codes, bytes_eq}
use aviationwx_org_bridge.Files.Maps.{insert, erase}
use aviationwx_org_bridge.Queue.Types.{Queue, QueuedImage}

-- An uploader is a name here; what it answers is an input of the steps.
pub data Uploader : Type 0 where
  nil : Uploader
  client : ℕ → Uploader

-- uploadFailureState
pub record UploadFailureState : Type 0 where
  pub consecutive_failures : ℕ
  pub last_failure : GoTime
  pub last_auth_failure : GoTime
  pub backoff_until : GoTime

abbrev pub no_failures : UploadFailureState
no_failures = record {
  consecutive_failures = 0;
  last_failure = zero_time;
  last_auth_failure = zero_time;
  backoff_until = zero_time;
}

-- uploadTask; queues are shared and stand for their addresses.
pub record UploadTask : Type 0 where
  pub camera_id : Bytes
  pub image : QueuedImage
  pub queue : ℕ
  pub uploader : Uploader
  pub remote_path : Bytes

-- Where a worker goroutine with a task is: it has received it; it has raised activeUploads; it is in
-- uploadWithRetry and what follows; the deferred cleanup is to come; it has deleted the file from
-- inFlight, and is still to lower activeUploads.
pub data Running : Type 0 where
  taken counted uploading cleaning released : UploadTask → Running

-- The goroutine of an upload whose deadline has passed, which nothing stops, and whether its second
-- attempt has begun.
pub data Late : Type 0 where
  late : Bool → UploadTask → Late

-- Where the coordinator is: between two passes, before a camera of a pass, with an image of a camera in
-- hand, with its file marked and the task to be sent, or with a task that found no room and its file to be
-- deleted from inFlight. A pass has the cameras that are left and the slots that are left.
pub data Coordinator : Type 0 where
  idle : Coordinator
  visiting : List Bytes → ℕ → Coordinator
  holding marked withdrawing : UploadTask → List Bytes → ℕ → Coordinator

pub record UploadStats : Type 0 where
  pub uploads_total : ℕ
  pub uploads_success : ℕ
  pub uploads_failed : ℕ
  pub uploads_retried : ℕ
  pub uploads_today : ℕ
  pub today_date : GoTime
  pub auth_failures : ℕ
  pub last_upload_time : GoTime
  pub last_success_time : GoTime
  pub last_failure_time : GoTime
  pub last_failure_reason : Bytes

-- `store` has the queues at their addresses, `channel` the tasks sent and not taken, oldest first.
pub record UploadWorker : Type 0 where
  pub queues : List (Bytes × ℕ)
  pub queue_order : List Bytes
  pub remote_paths : List (Bytes × Bytes)
  pub uploaders : List (Bytes × Uploader)
  pub camera_failures : List (Bytes × UploadFailureState)
  pub max_concurrent : ℕ
  pub catchup_threshold : ℕ
  pub auth_backoff : ℕ
  pub active_uploads : ℕ
  pub in_flight : List Bytes
  pub stats : UploadStats
  pub store : ℕ → Queue
  pub channel : List UploadTask
  pub running : List Running
  pub overdue : List Late
  pub coordinator : Coordinator

-- The path of an image: the directory of a queue ends in the camera's name.
abbrev pub file_path : UploadTask → Bytes
file_path t = t.camera_id ++ codes "/" ++ t.image.filename

abbrev or_default : ℕ → ℕ → ℕ
or_default fallback n = if n == 0 then fallback else n

-- t.Truncate(24 * time.Hour)
unfoldable pub truncate_day : GoTime → GoTime
truncate_day (ℤ.pos n) = pos (n / (86_400 * second) * (86_400 * second))
truncate_day (ℤ.negsuc n) = negsuc ((n / (86_400 * second) + 1) * (86_400 * second) - 1)

-- NewUploadWorker at a time; a zero takes the default.
unfoldable pub new_upload_worker : GoTime → ℕ → ℕ → ℕ → (ℕ → Queue) → UploadWorker
unfolding truncate_day
new_upload_worker now max_concurrent catchup_threshold auth_backoff store = record {
  queues = [];
  queue_order = [];
  remote_paths = [];
  uploaders = [];
  camera_failures = [];
  max_concurrent = or_default 2 max_concurrent;
  catchup_threshold = or_default 20 catchup_threshold;
  auth_backoff = or_default (60 * second) auth_backoff;
  active_uploads = 0;
  in_flight = [];
  stats = record {
    uploads_total = 0;
    uploads_success = 0;
    uploads_failed = 0;
    uploads_retried = 0;
    uploads_today = 0;
    today_date = truncate_day now;
    auth_failures = 0;
    last_upload_time = zero_time;
    last_success_time = zero_time;
    last_failure_time = zero_time;
    last_failure_reason = [];
  };
  store = store;
  channel = [];
  running = [];
  overdue = [];
  coordinator = idle;
}

unfoldable pub add_queue : Bytes → ℕ → Bytes → Uploader → UploadWorker → UploadWorker
add_queue id q path uploader w = record w {
  queues = insert id q w.queues;
  remote_paths = insert id path w.remote_paths;
  uploaders = insert id uploader w.uploaders;
  queue_order = w.queue_order ++ id ∷ [];
  camera_failures = insert id no_failures w.camera_failures;
}

-- The first occurrence goes.
unfoldable pub remove_first : Bytes → List Bytes → List Bytes
remove_first id [] = []
remove_first id (x ∷ xs) = if bytes_eq x id then xs else x ∷ remove_first id xs

unfoldable pub remove_queue : Bytes → UploadWorker → UploadWorker
unfolding remove_first
remove_queue id w = record w {
  queues = erase id w.queues;
  remote_paths = erase id w.remote_paths;
  uploaders = erase id w.uploaders;
  camera_failures = erase id w.camera_failures;
  queue_order = remove_first id w.queue_order;
}
