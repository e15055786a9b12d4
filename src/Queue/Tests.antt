-- ===== src/Queue/Tests.antt =====
-- The theorems on internal/queue/queue.go at concrete queues.
use Prim.Native.String.{String}
use aviationwx_org_bridge.Prelude.{
  ℕ, ◌+◌, ◌*◌, ◌/◌, ◌-◌, ◌<◌, ◌≤◌, ◌≡◌, refl, true, false, ◌||◌, List, [], ◌∷◌, none, some, arith,
  leb, length, take, drop,
}
use aviationwx_org_bridge.Prelude.Int.{pos}
use aviationwx_org_bridge.Prelude.Ratio.{ratio}
use aviationwx_org_bridge.Prelude.Clock.{GoTime, millisecond}
use aviationwx_org_bridge.Files.Bytes.{codes, has_suffix, bytes_eq, trim_suffix}
use aviationwx_org_bridge.Files.Decimal.{parse_int}
use aviationwx_org_bridge.Files.Entry.{Entry, find, Listed}
use aviationwx_org_bridge.Queue.Types.{
  Queue, Environment, QueuedImage, default_queue_config, initial_state, critical, queue_empty,
  capture_paused,
}
use aviationwx_org_bridge.Queue.Disk.{file_name, regular_file}
use aviationwx_org_bridge.Queue.Listing.{images, is_image, list_files_sorted, or_empty}
use aviationwx_org_bridge.Queue.Health.{update_health_level}
use aviationwx_org_bridge.Queue.Thinning.{
  keep_count, emergency_thin, emergency_thin_for_space, protect, thin_queue,
}
use aviationwx_org_bridge.Queue.Enqueue.{enqueue, free_name, refused}
use aviationwx_org_bridge.Queue.Upload.{mark_uploaded}
use aviationwx_org_bridge.Queue.Dequeue.{dequeue, failure}
use aviationwx_org_bridge.Queue.Consistent.{Consistent}
use aviationwx_org_bridge.Queue.Names.{free_name_total}
use aviationwx_org_bridge.Queue.Store.{Done, enqueue-Done}
use aviationwx_org_bridge.Queue.Calls.{uploads, expires, step, run, step-Consistent}
use aviationwx_org_bridge.Queue.Faults.{Stuck, paused_forever, mark_uploaded_missing}
use aviationwx_org_bridge.Queue.Levels.{default_level, update_health_level_default}
use aviationwx_org_bridge.Queue.Ends.{thin_queue-Listed}
use aviationwx_org_bridge.Queue.Kept.{emergency_thin-Listed, emergency_thin_for_space-Listed}

-- A file system without failures, and with free space for a while.
abbrev pub reliable : Environment
reliable = record {
  read_dir_fails = λ es. false;
  stat_fails = λ es n. false;
  remove_fails = λ es n. false;
  rename_fails = λ es n. false;
  write_fault = λ es n size. none;
  free_space = λ es. some 500;
}

abbrev pub image_at : String → ℕ → Entry
image_at n size = regular_file (codes n) size

-- Three images and a note, not in order.
abbrev four_files : List Entry
four_files =
    image_at "1735142730002.jpg" 300
    ∷ image_at "notes.txt" 20
    ∷ image_at "1735142730000.jpg" 100
    ∷ image_at "1735142730001.jpg" 200
    ∷ []

abbrev of_files : List Entry → ℕ → ℕ → Queue
of_files es n bytes = record {
  config = default_queue_config;
  state = record initial_state { image_count = pos n; total_size_bytes = pos bytes };
  entries = es;
  environment = reliable;
  pause_signal = false;
  resume_signal = false;
}

abbrev pub three_images : Queue
three_images = of_files four_files 3 600

pub three_images-Consistent : Consistent three_images
unfolding is_image has_suffix bytes_eq parse_int trim_suffix
three_images-Consistent = record { distinct = ground arith; counted = refl; sized = refl }

-- The clock, ten seconds after the images.
abbrev noon : GoTime
noon = pos 1_735_142_740_000_000_000

free_name_total_example :
    (k : ℕ) × (k < 5)
    × (free_name 5 (λ n. false) (pos 1_735_142_730_000_000_000) four_files
        ≡ some (pos (1_735_142_730_000_000_000 + k * millisecond)))
    × (find
          (file_name (pos ((1_735_142_730_000_000_000 + k * millisecond) / millisecond)))
          four_files
        ≡ none)
free_name_total_example =
    free_name_total 5 1_735_142_730_000_000_000 (λ n. false) four_files (λ n. refl) (omega arith)
      (omega arith)

enqueue-Done_example :
    Done 150 1_735_142_730_000_000_000 4
      (enqueue noon 150 (pos 1_735_142_730_000_000_000) three_images)
enqueue-Done_example =
    enqueue-Done noon 150 1_735_142_730_000_000_000 three_images (omega arith)
      three_images-Consistent

-- The oldest image, whose upload has ended.
abbrev pub oldest : QueuedImage
oldest = record {
  filename = codes "1735142730000.jpg";
  timestamp = pos 1_735_142_730_000_000_000;
  size_bytes = 100;
}

step-Consistent_example : Consistent (step (uploads oldest) three_images)
unfolding find bytes_eq is_image has_suffix parse_int trim_suffix
step-Consistent_example =
    step-Consistent (uploads oldest) three_images
      (image_at "1735142730000.jpg" 100, refl, refl, refl) three_images-Consistent

-- A paused queue without images.
abbrev paused_empty : Queue
paused_empty = record (of_files [] 0 0) {
  state = record initial_state { capture_paused = true; health_level = critical };
}

paused_empty-Stuck : Stuck paused_empty
paused_empty-Stuck = record {
  consistent = record { distinct = tt; counted = refl; sized = refl };
  paused = refl;
  empty = refl;
}

paused_forever_example :
    (dequeue (run (expires noon ∷ expires noon ∷ []) paused_empty) ≡ failure queue_empty)
    × (enqueue noon 150 noon (run (expires noon ∷ expires noon ∷ []) paused_empty)
        ≡ (refused capture_paused, run (expires noon ∷ expires noon ∷ []) paused_empty))
paused_forever_example =
    paused_forever (expires noon ∷ expires noon ∷ []) paused_empty noon 150 noon (refl, (refl, tt))
      paused_empty-Stuck

-- An image that is not in the directory any more.
abbrev gone : QueuedImage
gone = record { filename = codes "1735142729999.jpg"; timestamp = pos 0; size_bytes = 50 }

abbrev one_image : Queue
one_image = of_files (image_at "1735142730000.jpg" 100 ∷ []) 1 100

one_image-Consistent : Consistent one_image
unfolding is_image has_suffix bytes_eq parse_int trim_suffix
one_image-Consistent = record { distinct = (tt, tt); counted = refl; sized = refl }

mark_uploaded_missing_example :
    let q' = (mark_uploaded gone one_image).1 in
    (q'.image_count ≡ pos 0)
    × (length (images q'.entries) ≡ 1)
    × (◌≡◌ {A = ℕ} 0 0 → dequeue q' ≡ failure queue_empty)
unfolding is_image has_suffix bytes_eq parse_int trim_suffix find
mark_uploaded_missing_example =
    mark_uploaded_missing gone one_image 0 one_image-Consistent refl refl

update_health_level_default_example :
    ((update_health_level three_images).health_level ≡ default_level 3 600)
    × ((update_health_level three_images).capture_paused
        ≡ (leb 95 3 || leb 49_807_360 600 || false))
update_health_level_default_example = update_health_level_default three_images 3 600 refl refl refl

emergency_thin-Listed_example :
    let files = or_empty (list_files_sorted three_images) in
    let kept = keep_count (length files) (ratio 3 10) in
    (1 ≤ kept)
    × Listed (emergency_thin (ratio 3 10) three_images).1.entries (drop (length files - kept) files)
emergency_thin-Listed_example =
    emergency_thin-Listed (ratio 3 10) three_images three_images-Consistent

emergency_thin_for_space-Listed_example :
    let files = or_empty (list_files_sorted three_images) in
    Listed (emergency_thin_for_space 1000 three_images).entries (drop (length files - 1) files)
emergency_thin_for_space-Listed_example =
    emergency_thin_for_space-Listed 1000 three_images three_images-Consistent

thin_queue-Listed_example :
    let files = or_empty (list_files_sorted three_images) in
    let (oldest, newest) =
      protect three_images.config.protect_oldest three_images.config.protect_newest
        (length files) in
    Listed (thin_queue three_images).entries (take oldest files)
    × Listed (thin_queue three_images).entries (drop (length files - newest) files)
thin_queue-Listed_example = thin_queue-Listed three_images three_images-Consistent

-- The first two of the three images are an hour old.
abbrev later : GoTime
later = pos 1_735_146_330_002_000_000
