-- ===== src/Queue/Enqueue.antt =====
-- Enqueue and writeImageWithRetry of internal/queue/queue.go. An image is its number of bytes.
use aviationwx_org_bridge.Prelude.{
  ℕ, zero, suc, ◌+◌, Bool, true, List, ◌++◌, Option, none, some, ltb, if◌then◌else◌, length, ◌||◌,
}
use aviationwx_org_bridge.Prelude.Int.{pos, ◌+ℤ◌, ◌-ℤ◌, ltb_ℤ}
use aviationwx_org_bridge.Prelude.Ratio.{ratio}
use aviationwx_org_bridge.Prelude.Clock.{
  GoTime, seconds, millisecond, unix_milli, before, after, is_zero,
}
use aviationwx_org_bridge.Files.Bytes.{Bytes}
use aviationwx_org_bridge.Files.Entry.{Entry, find}
use aviationwx_org_bridge.Queue.Types.{
  Queue, QueueError, capture_paused, invalid_image, image_from_future, image_expired, queue_full,
  WriteFault, rename_to_final, write_temp_file, write_temp_file_after_cleanup, no_space,
  other_fault,
}
use aviationwx_org_bridge.Queue.Disk.{tmp, file_name, os_remove, os_write_file, os_rename}
use aviationwx_org_bridge.Queue.Listing.{is_some}
use aviationwx_org_bridge.Queue.Health.{update_health_level, should_thin}
use aviationwx_org_bridge.Queue.Thinning.{
  has_space_for_image, emergency_thin_for_space, emergency_thin_locked,
}

-- `written`, `not_written` for lack of space, or an error.
pub data WriteResult : Type 0 where
  written not_written : WriteResult
  write_error : QueueError → WriteResult

-- os.Remove whose error is ignored.
abbrev pub remove_quietly : Bytes → Queue → Queue
remove_quietly n q = (os_remove n q).1

-- The rename to the final name, after the temporary file was written.
unfoldable pub finalize : Bytes → ℕ → Queue → WriteResult × Queue
unfolding os_rename
finalize path size q =
    let (renamed, q') = os_rename (path ++ tmp) path size q in
    if renamed
    then (written, q')
    else (write_error rename_to_final, remove_quietly (path ++ tmp) q')

-- After the second attempt, which follows the cleanup.
unfoldable pub second_attempt : Bytes → ℕ → Option WriteFault × Queue → WriteResult × Queue
unfolding finalize
second_attempt path size (none, q) = finalize path size q
second_attempt path size (some (no_space _), q) = (not_written, q)
second_attempt path size (some (other_fault _), q) = (write_error write_temp_file_after_cleanup, q)

-- Room is made by keeping three tenths of the files.
abbrev pub retry : Bytes → ℕ → Queue → WriteResult × Queue
retry path size q =
    second_attempt path size
      (os_write_file (path ++ tmp) size (emergency_thin_locked (ratio 3 10) q).1)

-- After the first attempt.
unfoldable pub first_attempt : Bytes → ℕ → Option WriteFault × Queue → WriteResult × Queue
unfolding finalize second_attempt os_write_file
first_attempt path size (none, q) = finalize path size q
first_attempt path size (some (no_space _), q) = retry path size (remove_quietly (path ++ tmp) q)
first_attempt path size (some (other_fault _), q) = (write_error write_temp_file, q)

-- writeImageWithRetry.
unfoldable pub write_image_with_retry : Bytes → ℕ → Queue → WriteResult × Queue
unfolding first_attempt
write_image_with_retry path size q = first_attempt path size (os_write_file (path ++ tmp) size q)

-- The loop that adds a millisecond until os.Stat answers that there is no such file; `none` if it goes
-- on for longer than the fuel. It goes on when os.Stat fails with another error.
unfoldable pub free_name : ℕ → (Bytes → Bool) → GoTime → List Entry → Option GoTime
free_name zero fails t es = none
free_name (suc f) fails t es =
    let rest = free_name f fails (t +ℤ pos millisecond) es in
    let name = file_name (unix_milli t) in
    if fails name || is_some (find name es) then rest else some t

-- The checks before anything is written.
unfoldable pub check_image : GoTime → ℕ → GoTime → Queue → Option QueueError
check_image now size t q =
    if q.capture_paused
    then some capture_paused
    else if ltb size 100
    then some invalid_image
    else if after t (now +ℤ seconds 5)
    then some image_from_future
    else if ltb_ℤ (seconds q.config.max_age_seconds) (now -ℤ t)
    then some image_expired
    else none

-- The preemptive cleanup.
unfoldable pub make_space : ℕ → Queue → Queue
make_space size q = if has_space_for_image size q then q else emergency_thin_for_space size q

-- The counters and the two timestamps after an image was written.
unfoldable pub count_image : ℕ → GoTime → Queue → Queue
count_image size t q = record q {
  state = record (q.state) {
    image_count = q.image_count +ℤ pos 1;
    total_size_bytes = q.total_size_bytes +ℤ pos size;
    images_queued = q.images_queued + 1;
    newest_timestamp = if after t q.newest_timestamp then t else q.newest_timestamp;
    oldest_timestamp =
        if is_zero q.oldest_timestamp
        then t
        else if before t q.oldest_timestamp
        then t
        else q.oldest_timestamp;
  };
}

-- How Enqueue ends, and whether it starts thinQueue in the background.
pub data EnqueueResult : Type 0 where
  enqueued : Bool → EnqueueResult
  refused : QueueError → EnqueueResult
  -- The search for a free name goes on after one round more than there are files.
  out_of_fuel : EnqueueResult

-- What follows the write.
unfoldable pub finish : ℕ → GoTime → WriteResult × Queue → EnqueueResult × Queue
finish size t (written, q) =
    let q' = update_health_level (count_image size t q) in (enqueued (should_thin q'), q')
finish size t (not_written, q) = (
  refused queue_full,
  record q { state = record (q.state) { capture_paused = true }; pause_signal = true },
)
finish size t (write_error e, q) = (refused e, q)

unfoldable pub store_image : ℕ → Option GoTime → Queue → EnqueueResult × Queue
store_image size none q = (out_of_fuel, q)
store_image size (some t) q =
    finish size t (write_image_with_retry (file_name (unix_milli t)) size q)

unfoldable pub enqueue : GoTime → ℕ → GoTime → Queue → EnqueueResult × Queue
enqueue now size t q = elim (check_image now size t q) [
  | some e ↦ (refused e, q)
  | none ↦
      let q' = make_space size q in
      let fails = q'.environment.stat_fails q'.entries in
      store_image size (free_name (suc (length q'.entries)) fails t q'.entries) q'
]
