-- ===== src/Queue/Levels.antt =====
-- The health levels of internal/queue/queue.go in whole numbers, for the default configuration.
use aviationwx_org_bridge.Prelude.{ℕ, ◌*◌, ◌≡◌, ◌||◌, ◌&&◌, leb, ltb, arith, if◌then◌else◌}
use aviationwx_org_bridge.Prelude.Int.{pos}
use aviationwx_org_bridge.Prelude.Ratio.{Ratio, ratio}
use aviationwx_org_bridge.Queue.Types.{
  Queue, HealthLevel, healthy, catching_up, degraded, critical, default_queue_config,
}
use aviationwx_org_bridge.Queue.Health.{update_health_level, can_resume_capture, capacity_percent}

-- The shares of DefaultQueueConfig: 50, 80 and 95 percent of 100 files or of 50 MiB.
abbrev pub default_level : ℕ → ℕ → HealthLevel
default_level n bytes =
    if leb 95 n || leb 49_807_360 bytes
    then critical
    else if leb 80 n || leb 41_943_040 bytes
    then degraded
    else if leb 50 n || leb 26_214_400 bytes
    then catching_up
    else healthy

-- The larger share, over 100 files and over 50 MiB.
larger_share : ℕ → ℕ → Ratio
larger_share n bytes =
    if ltb (bytes * 100) (n * 52_428_800) then ratio n 100 else ratio bytes 52_428_800

capacity_percent_default :
    (q : Queue) (n bytes : ℕ)
    → q.config ≡ default_queue_config
    → q.image_count ≡ pos n
    → q.total_size_bytes ≡ pos bytes
    → capacity_percent q ≡ larger_share n bytes
unfolding capacity_percent larger_share
capacity_percent_default q n bytes ec en eb = ground arith

-- With the default configuration the level is that of the larger of the two shares, from 50, 80 and 95
-- percent on, capture is paused at the critical level if it was not before, and nothing here resumes it.
pub update_health_level_default :
    (q : Queue) (n bytes : ℕ)
    → q.config ≡ default_queue_config
    → q.image_count ≡ pos n
    → q.total_size_bytes ≡ pos bytes
    → ((update_health_level q).health_level ≡ default_level n bytes)
      × ((update_health_level q).capture_paused
          ≡ (leb 95 n || leb 49_807_360 bytes || q.capture_paused))
unfolding update_health_level larger_share
update_health_level_default q n bytes ec en eb =
    ground (arith, capacity_percent_default q n bytes ec en eb)

-- Capture may resume below 70 percent of both limits.
pub can_resume_capture_default :
    (q : Queue) (n bytes : ℕ)
    → q.config ≡ default_queue_config
    → q.image_count ≡ pos n
    → q.total_size_bytes ≡ pos bytes
    → can_resume_capture q ≡ (ltb n 70 && ltb bytes 36_700_160)
unfolding can_resume_capture larger_share
can_resume_capture_default q n bytes ec en eb =
    ground (arith, capacity_percent_default q n bytes ec en eb)
