-- ===== src/Queue/FleetTests.antt =====
-- The theorems on internal/queue/manager.go at a manager of one queue.
use aviationwx_org_bridge.Prelude.{◌≡◌, refl, [], ◌∷◌, some}
use aviationwx_org_bridge.Files.Bytes.{codes}
use aviationwx_org_bridge.Queue.Types.{Queue, default_queue_config, initial_state}
use aviationwx_org_bridge.Queue.Dequeue.{answer, new_queue, scan_directory, restore}
use aviationwx_org_bridge.Queue.Listing.{list_files_sorted}
use aviationwx_org_bridge.Queue.Health.{update_health_level, capacity_percent}
use aviationwx_org_bridge.Files.Entry.{sort_by_name}
use aviationwx_org_bridge.Queue.Manager.{
  Manager, FileSystem, new_manager, default_global_queue_config,
}
use aviationwx_org_bridge.Queue.Tests.{three_images, reliable}

abbrev north : Manager
north = record (new_manager default_global_queue_config) {
  queues = (codes "north", three_images) ∷ [];
}

-- A file system of 1000 bytes, of which 300 are free.
abbrev roomy : FileSystem
roomy = λ qs. some (1000, 300)

-- A camera without images.
abbrev south_queue : Queue
south_queue = record three_images { state = initial_state; entries = [] }

south_created : new_queue default_queue_config reliable [] ≡ answer south_queue
unfolding new_queue scan_directory restore list_files_sorted update_health_level sort_by_name
    capacity_percent
south_created = refl
