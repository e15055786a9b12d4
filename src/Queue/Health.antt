-- ===== src/Queue/Health.antt =====
-- getCapacityPercentLocked, updateHealthLevelLocked, shouldThinLocked and canResumeCaptureLocked of
-- internal/queue/queue.go.
use aviationwx_org_bridge.Prelude.{◌*◌, Bool, true, not, ◌&&◌, ltb, leb, if◌then◌else◌}
use aviationwx_org_bridge.Prelude.Ratio.{Ratio, ratio, ratio_lt, ratio_le}
use aviationwx_org_bridge.Queue.Types.{
  Queue, HealthLevel, healthy, catching_up, degraded, critical, rank,
}

-- A division by a limit that is not set gives 0.
count_percent : Queue → Ratio
count_percent q =
    if ltb 0 q.config.max_files
    then record { num = q.image_count; den = q.config.max_files }
    else ratio 0 1

size_percent : Queue → Ratio
size_percent q =
    if ltb 0 q.config.max_size_mb
    then record { num = q.total_size_bytes; den = q.config.max_size_mb * 1024 * 1024 }
    else ratio 0 1

unfoldable pub capacity_percent : Queue → Ratio
unfolding count_percent size_percent
capacity_percent q =
    if ratio_lt (size_percent q) (count_percent q) then count_percent q else size_percent q

-- The send to the channel is dropped if a signal waits there.
abbrev pause : Queue → Queue
pause q =
    if q.config.pause_capture_on_critical && not q.capture_paused
    then record q { state = record (q.state) { capture_paused = true }; pause_signal = true }
    else q

abbrev pub at_level : HealthLevel → Queue → Queue
at_level l q = record q { state = record (q.state) { health_level = l } }

unfoldable pub update_health_level : Queue → Queue
update_health_level q =
    let pct = capacity_percent q in
    if ratio_le q.config.threshold_critical pct
    then pause (at_level critical q)
    else if ratio_le q.config.threshold_degraded pct
    then at_level degraded q
    else if ratio_le q.config.threshold_catching_up pct
    then at_level catching_up q
    else at_level healthy q

unfoldable pub should_thin : Queue → Bool
should_thin q = leb (rank catching_up) (rank q.health_level) && q.config.thinning_enabled

unfoldable pub can_resume_capture : Queue → Bool
can_resume_capture q = ratio_lt (capacity_percent q) q.config.resume_threshold
