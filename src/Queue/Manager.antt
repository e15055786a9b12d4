-- ===== src/Queue/Manager.antt =====
-- internal/queue/manager.go: the queues of all cameras, and the checks of memory and disk.
use aviationwx_org_bridge.Prelude.{
  ℕ, ◌+◌, ◌*◌, List, [], ◌∷◌, Option, none, some, if◌then◌else◌, ltb,
}
use aviationwx_org_bridge.Prelude.Int.{ℤ, pos, ◌+ℤ◌, ltb_ℤ}
use aviationwx_org_bridge.Prelude.Ratio.{Ratio, ratio}
use aviationwx_org_bridge.Prelude.Clock.{GoTime}
use aviationwx_org_bridge.Files.Bytes.{Bytes}
use aviationwx_org_bridge.Files.Entry.{Entry}
use aviationwx_org_bridge.Files.Maps.{lookup, insert, erase}
use aviationwx_org_bridge.Queue.Types.{Queue, QueueConfig, Environment, QueueError}
use aviationwx_org_bridge.Queue.Thinning.{emergency_thin, expire_old_images}
use aviationwx_org_bridge.Queue.Dequeue.{Answer, answer, failure, new_queue}

-- The base path is left out.
pub record GlobalQueueConfig : Type 0 where
  pub max_total_size_mb : ℕ
  pub memory_check_seconds : ℕ
  pub emergency_thin_ratio : Ratio
  pub max_heap_mb : ℕ

abbrev pub default_global_queue_config : GlobalQueueConfig
default_global_queue_config = record {
  max_total_size_mb = 100;
  memory_check_seconds = 5;
  emergency_thin_ratio = ratio 5 10;
  max_heap_mb = 400;
}

pub record Manager : Type 0 where
  pub queues : List (Bytes × Queue)
  pub global_config : GlobalQueueConfig
  pub current_total_size : ℤ

abbrev pub new_manager : GlobalQueueConfig → Manager
new_manager c = record { queues = []; global_config = c; current_total_size = pos 0 }

pub data ManagerResult : Type 0 where
  done already_exists not_found : ManagerResult
  not_created : QueueError → ManagerResult

unfoldable pub insert_new : Bytes → Answer Queue → Manager → ManagerResult × Manager
insert_new id (answer q) m = (done, record m { queues = insert id q m.queues })
insert_new id (failure e) m = (not_created e, m)

-- CreateQueue, for a directory with some files.
unfoldable pub create_queue :
    Bytes → QueueConfig → Environment → List Entry → Manager → ManagerResult × Manager
create_queue id c env files m = elim (lookup id m.queues) [
  | some q ↦ (already_exists, m)
  | none ↦ insert_new id (new_queue c env files) m
]

abbrev pub get_queue : Bytes → Manager → Option Queue
get_queue id m = lookup id m.queues

-- RemoveQueue of the manager; the directory goes with the queue, if it can be removed.
unfoldable pub forget_queue : Bytes → Manager → ManagerResult × Manager
forget_queue id m = elim (lookup id m.queues) [
  | none ↦ (not_found, m)
  | some q ↦ (done, record m { queues = erase id m.queues })
]

unfoldable pub total_queue_size : List (Bytes × Queue) → ℤ
total_queue_size [] = pos 0
total_queue_size ((id, q) ∷ qs) = q.total_size_bytes +ℤ total_queue_size qs

unfoldable pub total_image_count : List (Bytes × Queue) → ℤ
total_image_count [] = pos 0
total_image_count ((id, q) ∷ qs) = q.image_count +ℤ total_image_count qs

-- for _, q := range m.queues { q.EmergencyThin(ratio) }
unfoldable pub thin_all : Ratio → List (Bytes × Queue) → List (Bytes × Queue)
thin_all r [] = []
thin_all r ((id, q) ∷ qs) = (id, (emergency_thin r q).1) ∷ thin_all r qs

-- The total and the free bytes of the file system, by what the queues hold, if it can tell.
abbrev pub FileSystem : Type 0
FileSystem = List (Bytes × Queue) → Option (ℕ × ℕ)

-- Below 10 percent free, keep 30 percent of each queue; below 20, a half.
unfoldable pub relieve : Option (ℕ × ℕ) → List (Bytes × Queue) → List (Bytes × Queue)
relieve none qs = qs
relieve (some (total, free)) qs =
    if ltb (free * 100) (10 * total)
    then thin_all (ratio 3 10) qs
    else if ltb (free * 100) (20 * total)
    then thin_all (ratio 5 10) qs
    else qs

abbrev pub check_filesystem_space : FileSystem → List (Bytes × Queue) → List (Bytes × Queue)
check_filesystem_space fs qs = relieve (fs qs) qs

unfoldable pub limit_size : GlobalQueueConfig → List (Bytes × Queue) → List (Bytes × Queue)
limit_size c qs =
    if ltb_ℤ (pos (c.max_total_size_mb * 1024 * 1024)) (total_queue_size qs)
    then thin_all c.emergency_thin_ratio qs
    else qs

unfoldable pub limit_heap : ℕ → GlobalQueueConfig → List (Bytes × Queue) → List (Bytes × Queue)
limit_heap heap c qs =
    if ltb (c.max_heap_mb * 1024 * 1024) heap then thin_all (ratio 3 10) qs else qs

-- checkMemoryPressure, with the allocated heap.
unfoldable pub check_memory_pressure : FileSystem → ℕ → Manager → Manager
check_memory_pressure fs heap m = record m {
  current_total_size = total_queue_size m.queues;
  queues =
      limit_heap heap m.global_config
        (check_filesystem_space fs (limit_size m.global_config m.queues));
}

-- The queues after ExpireAllOldImages, and how many images expired.
unfoldable pub expire_all : GoTime → List (Bytes × Queue) → ℕ × List (Bytes × Queue)
expire_all now [] = (0, [])
expire_all now ((id, q) ∷ qs) =
    let (n, q') = expire_old_images now q in
    let (k, qs') = expire_all now qs in (n + k, (id, q') ∷ qs')

unfoldable pub expire_all_old_images : GoTime → Manager → ℕ × Manager
expire_all_old_images now m = let (n, qs) = expire_all now m.queues in (n, record m { queues = qs })
