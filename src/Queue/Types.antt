-- ===== src/Queue/Types.antt =====
-- internal/queue/types.go: health levels, configuration, state and errors of a queue.
use Prim.Native.String.{String}
use aviationwx_org_bridge.Prelude.{ℕ, Bool, true, false, List, Option}
use aviationwx_org_bridge.Prelude.Int.{ℤ, pos}
use aviationwx_org_bridge.Prelude.Ratio.{Ratio, ratio}
use aviationwx_org_bridge.Prelude.Clock.{GoTime, zero_time}
use aviationwx_org_bridge.Files.Bytes.{Bytes}
use aviationwx_org_bridge.Files.Entry.{Entry}

pub data QueueError : Type 0 where
  queue_empty capture_paused queue_full invalid_image image_expired image_from_future : QueueError
  rename_to_final write_temp_file write_temp_file_after_cleanup : QueueError
  read_directory remove_uploaded_file : QueueError

pub data HealthLevel : Type 0 where
  healthy catching_up degraded critical : HealthLevel

-- The constants are numbered by iota, and compared as numbers.
abbrev pub rank : HealthLevel → ℕ
rank healthy = 0
rank catching_up = 1
rank degraded = 2
rank critical = 3

pub health_name : HealthLevel → String
health_name healthy = "healthy"
health_name catching_up = "catching_up"
health_name degraded = "degraded"
health_name critical = "critical"

-- An image that waits for its upload; `filename` also stands for its path.
pub record QueuedImage : Type 0 where
  pub filename : Bytes
  pub timestamp : GoTime
  pub size_bytes : ℕ

pub record QueueConfig : Type 0 where
  pub max_files : ℕ
  pub max_size_mb : ℕ
  pub max_age_seconds : ℕ
  pub thinning_enabled : Bool
  pub protect_newest : ℕ
  pub protect_oldest : ℕ
  pub threshold_catching_up : Ratio
  pub threshold_degraded : Ratio
  pub threshold_critical : Ratio
  pub pause_capture_on_critical : Bool
  pub resume_threshold : Ratio

abbrev pub default_queue_config : QueueConfig
default_queue_config = record {
  max_files = 100;
  max_size_mb = 50;
  max_age_seconds = 3600;
  thinning_enabled = true;
  protect_newest = 10;
  protect_oldest = 5;
  threshold_catching_up = ratio 50 100;
  threshold_degraded = ratio 80 100;
  threshold_critical = ratio 95 100;
  pause_capture_on_critical = true;
  resume_threshold = ratio 70 100;
}

-- The counters only grow.
pub record QueueState : Type 0 where
  pub image_count : ℤ
  pub total_size_bytes : ℤ
  pub oldest_timestamp : GoTime
  pub newest_timestamp : GoTime
  pub health_level : HealthLevel
  pub capture_paused : Bool
  pub images_queued : ℕ
  pub images_uploaded : ℕ
  pub images_thinned : ℕ
  pub images_expired : ℕ

-- How a write of a file ends when it fails: out of space or another error, and the size of what it
-- leaves under the name, if it leaves a file.
pub data WriteFault : Type 0 where
  no_space other_fault : Option ℕ → WriteFault

-- What the operating system decides, for the contents of the directory and a name.
pub record Environment : Type 0 where
  pub read_dir_fails : List Entry → Bool
  -- os.Stat fails with another error than that there is no such file.
  pub stat_fails : List Entry → Bytes → Bool
  pub remove_fails : List Entry → Bytes → Bool
  pub rename_fails : List Entry → Bytes → Bool
  pub write_fault : List Entry → Bytes → ℕ → Option WriteFault
  pub free_space : List Entry → Option ℕ

-- The queue, with its directory. The two channels have room for one signal each.
pub record Queue : Type 0 where
  pub config : QueueConfig
  pub state : QueueState
  pub open state use *
  pub entries : List Entry
  pub environment : Environment
  pub pause_signal : Bool
  pub resume_signal : Bool

abbrev pub initial_state : QueueState
initial_state = record {
  image_count = pos 0;
  total_size_bytes = pos 0;
  oldest_timestamp = zero_time;
  newest_timestamp = zero_time;
  health_level = healthy;
  capture_paused = false;
  images_queued = 0;
  images_uploaded = 0;
  images_thinned = 0;
  images_expired = 0;
}
