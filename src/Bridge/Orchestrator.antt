-- ===== src/Bridge/Orchestrator.antt =====
-- internal/scheduler/orchestrator.go: the workers of all cameras, over one queue manager and one upload
-- worker. Each method holds the lock, so it is one function.
use aviationwx_org_bridge.Prelude.{
  ℕ, ◌+◌, ◌*◌, Bool, true, false, List, [], ◌∷◌, Option, none, some, if◌then◌else◌, ◌==◌,
}
use aviationwx_org_bridge.Prelude.Int.{ℤ, pos, negsuc}
use aviationwx_org_bridge.Prelude.Clock.{GoTime, zero_time, is_zero, second}
use aviationwx_org_bridge.Files.Bytes.{Bytes}
use aviationwx_org_bridge.Files.Entry.{Entry}
use aviationwx_org_bridge.Files.Maps.{lookup, insert, erase}
use aviationwx_org_bridge.Queue.Types.{Queue, Environment, default_queue_config}
use aviationwx_org_bridge.Queue.Manager.{Manager, ManagerResult, done, create_queue, forget_queue}
use aviationwx_org_bridge.Time.Authority.{Authority}
use aviationwx_org_bridge.Scheduler.Capture.{CaptureWorker, new_capture_worker}
use aviationwx_org_bridge.Uploads.Types.{
  UploadWorker, Uploader, new_upload_worker, add_queue, remove_queue,
}

-- A worker before its Start, after it, and after its Stop, which ends its goroutine.
pub data Phase : Type 0 where
  waiting running stopped : Phase

pub record CaptureSlot : Type 0 where
  pub worker : CaptureWorker
  pub phase : Phase

pub record UploadSlot : Type 0 where
  pub worker : UploadWorker
  pub phase : Phase

pub record OrchestratorConfig : Type 0 where
  pub max_concurrent_uploads : ℤ
  pub auth_backoff_secs : ℕ
  pub timezone : Bytes

-- DefaultOrchestratorConfig; the paths and limits of the queues are those of the manager.
abbrev pub default_orchestrator_config : OrchestratorConfig
default_orchestrator_config = record {
  max_concurrent_uploads = pos 2;
  auth_backoff_secs = 60;
  timezone = [];
}

-- The queues that the workers share stand in the manager; a worker has the one it was made with, and
-- the upload worker its address. `addresses` counts the queues that were made.
pub record Orchestrator : Type 0 where
  pub manager : Manager
  pub capture_workers : List (Bytes × CaptureSlot)
  pub upload_worker : Option UploadSlot
  pub authority : Option Authority
  pub config : OrchestratorConfig
  pub start_time : GoTime
  pub cancelled : Bool
  pub addresses : ℕ

-- NewOrchestrator, where the manager and the authority could be made.
abbrev pub new_orchestrator : OrchestratorConfig → Manager → Authority → Orchestrator
new_orchestrator c m a = record {
  manager = m;
  capture_workers = [];
  upload_worker = none;
  authority = some a;
  config = c;
  start_time = zero_time;
  cancelled = false;
  addresses = 0;
}

-- What is added: the path on the server, the interval, the uploader, and the files that the directory
-- of the queue has.
pub record Addition : Type 0 where
  pub id : Bytes
  pub remote_path : Bytes
  pub interval_secs : ℤ
  pub uploader : Uploader
  pub environment : Environment
  pub files : List Entry

-- maxConcurrent := 2, or what is configured.
abbrev pub max_concurrent_of : ℤ → ℕ
max_concurrent_of (pos n) = if n == 0 then 2 else n
max_concurrent_of (negsuc n) = 2

-- The upload worker, a new one if there is none yet.
abbrev pub upload_slot : GoTime → Queue → Orchestrator → UploadSlot
upload_slot now q o = elim o.upload_worker [
  | some u ↦ u
  | none ↦ record {
    worker =
        new_upload_worker now (max_concurrent_of o.config.max_concurrent_uploads) 0
          (o.config.auth_backoff_secs * second) (λ a. q);
    phase = waiting;
  }
]

-- The queue at a new address.
abbrev pub at_address : ℕ → Queue → UploadWorker → UploadWorker
at_address a q w = record w { store = λ b. if b == a then q else w.store b }

-- AddCamera after its queue was made. A capture worker starts at once if the orchestrator has started.
unfoldable pub attach : GoTime → Addition → Queue → Manager → Orchestrator → Orchestrator
attach now x q m o =
    let u = upload_slot now q o in
    record o {
      manager = m;
      capture_workers =
          insert x.id
            (record {
              worker = new_capture_worker now x.id q o.authority x.interval_secs;
              phase = if is_zero o.start_time then waiting else running;
            })
            o.capture_workers;
      upload_worker = some (record u {
        worker =
            add_queue x.id o.addresses x.remote_path x.uploader (at_address o.addresses q u.worker);
      });
      addresses = o.addresses + 1;
    }

abbrev pub attach_created :
    GoTime
    → Addition
    → ManagerResult
    → Option Queue
    → Manager
    → Orchestrator
    → ManagerResult × Orchestrator
attach_created now x done (some q) m o = (done, attach now x q m o)
attach_created now x r _ m o = (r, o)

-- AddCamera.
unfoldable pub add_camera : GoTime → Addition → Orchestrator → ManagerResult × Orchestrator
unfolding attach
add_camera now x o =
    let (r, m) = create_queue x.id default_queue_config x.environment x.files o.manager in
    attach_created now x r (lookup x.id m.queues) m o

-- RemoveCamera: the workers go also if the manager has no queue.
unfoldable pub remove_camera : Bytes → Orchestrator → ManagerResult × Orchestrator
remove_camera id o =
    let (r, m) = forget_queue id o.manager in
    (
      r,
      record o {
        manager = m;
        capture_workers = erase id o.capture_workers;
        upload_worker = elim o.upload_worker [
          | none ↦ none
          | some u ↦ some (record u { worker = remove_queue id u.worker })
        ];
      },
    )

unfoldable pub all_in : Phase → List (Bytes × CaptureSlot) → List (Bytes × CaptureSlot)
all_in p [] = []
all_in p ((id, s) ∷ ss) = (id, record s { phase = p }) ∷ all_in p ss

abbrev pub upload_in : Phase → Option UploadSlot → Option UploadSlot
upload_in p none = none
upload_in p (some u) = some (record u { phase = p })

-- Start.
unfoldable pub start_all : GoTime → Orchestrator → Orchestrator
unfolding all_in
start_all now o = record o {
  start_time = now;
  capture_workers = all_in running o.capture_workers;
  upload_worker = upload_in running o.upload_worker;
}

-- Stop.
unfoldable pub stop_all : Orchestrator → Orchestrator
unfolding all_in
stop_all o = record o {
  capture_workers = all_in stopped o.capture_workers;
  upload_worker = upload_in stopped o.upload_worker;
  cancelled = true;
}

unfoldable pub with_authority :
    Option Authority → List (Bytes × CaptureSlot) → List (Bytes × CaptureSlot)
with_authority a [] = []
with_authority a ((id, s) ∷ ss) =
    (id, record s { worker = record (s.worker) { authority = a } }) ∷ with_authority a ss

-- SetTimeAuthority, and SetTimeHealth after it has made an authority.
unfoldable pub set_time_authority : Option Authority → Orchestrator → Orchestrator
unfolding with_authority
set_time_authority a o = record o {
  authority = a;
  capture_workers = with_authority a o.capture_workers;
}
