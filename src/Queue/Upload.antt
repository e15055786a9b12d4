-- ===== src/Queue/Upload.antt =====
-- MarkUploaded of internal/queue/queue.go.
use aviationwx_org_bridge.Prelude.{ℕ, ◌+◌, true, false, ◌&&◌, Option, none, some, if◌then◌else◌}
use aviationwx_org_bridge.Prelude.Int.{ℤ, pos, negsuc, ◌-ℤ◌}
use aviationwx_org_bridge.Queue.Types.{Queue, QueuedImage, QueueError, remove_uploaded_file}
use aviationwx_org_bridge.Queue.Disk.{RemoveOutcome, removed, not_exist, remove_failed, os_remove}
use aviationwx_org_bridge.Queue.Listing.{recalculate_oldest}
use aviationwx_org_bridge.Queue.Health.{update_health_level, can_resume_capture}

-- if x < 0 { x = 0 }
abbrev pub at_least_zero : ℤ → ℤ
at_least_zero (pos n) = pos n
at_least_zero (negsuc n) = pos 0

-- The counters after one uploaded image.
unfoldable pub uncount_uploaded : ℕ → Queue → Queue
uncount_uploaded size q = record q {
  state = record (q.state) {
    image_count = at_least_zero (q.image_count -ℤ pos 1);
    total_size_bytes = at_least_zero (q.total_size_bytes -ℤ pos size);
    images_uploaded = q.images_uploaded + 1;
  };
}

-- Capture resumes if it was paused and there is room again.
unfoldable pub resume_capture : Queue → Queue
resume_capture q =
    if q.capture_paused && can_resume_capture q
    then record q { state = record (q.state) { capture_paused = false }; resume_signal = true }
    else q

unfoldable pub after_upload : ℕ → Queue → Queue
unfolding uncount_uploaded resume_capture
after_upload size q =
    resume_capture (update_health_level (recalculate_oldest (uncount_uploaded size q)))

unfoldable pub upload_outcome : QueuedImage → RemoveOutcome × Queue → Option QueueError × Queue
unfolding after_upload
upload_outcome img (removed, q) = (none, after_upload img.size_bytes q)
upload_outcome img (not_exist, q) = (none, after_upload img.size_bytes q)
upload_outcome img (remove_failed, q) = (some remove_uploaded_file, q)

unfoldable pub mark_uploaded : QueuedImage → Queue → Option QueueError × Queue
unfolding upload_outcome
mark_uploaded img q = upload_outcome img (os_remove img.filename q)
