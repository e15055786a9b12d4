-- ===== src/Config/Types.antt =====
-- The records of internal/config/types.go, and the settings and events of internal/config/service.go. A
-- pointer that may be nil is an Option, a map key is a byte string, and numbers are Go's integers.
use aviationwx_org_bridge.Prelude.{Bool, true, List, [], ◌∷◌, Option, none, some}
use aviationwx_org_bridge.Prelude.Int.{ℤ, pos}
use aviationwx_org_bridge.Prelude.Ratio.{Ratio}
use aviationwx_org_bridge.Files.Bytes.{Bytes, codes}

pub record Auth : Type 0 where
  pub scheme : Bytes
  pub username : Bytes
  pub password : Bytes
  pub token : Bytes

pub record Onvif : Type 0 where
  pub endpoint : Bytes
  pub username : Bytes
  pub password : Bytes
  pub profile_token : Bytes

pub record Rtsp : Type 0 where
  pub url : Bytes
  pub username : Bytes
  pub password : Bytes
  pub substream : Bool

pub record ImageProcessing : Type 0 where
  pub max_width : ℤ
  pub max_height : ℤ
  pub quality : ℤ

pub record Upload : Type 0 where
  pub protocol : Bytes
  pub host : Bytes
  pub port : ℤ
  pub username : Bytes
  pub password : Bytes
  pub base_path : Bytes
  pub timeout_connect_seconds : ℤ
  pub timeout_upload_seconds : ℤ

pub record QueueCamera : Type 0 where
  pub enabled : Bool
  pub max_files : ℤ
  pub max_size_mb : ℤ
  pub max_age_seconds : ℤ
  pub thinning_enabled : Bool
  pub protect_newest : ℤ
  pub protect_oldest : ℤ
  pub threshold_catching_up : Ratio
  pub threshold_degraded : Ratio
  pub threshold_critical : Ratio
  pub pause_capture_on_critical : Bool
  pub resume_threshold : Ratio

pub record Camera : Type 0 where
  pub id : Bytes
  pub name : Bytes
  pub kind : Bytes
  pub enabled : Bool
  pub snapshot_url : Bytes
  pub auth : Option Auth
  pub onvif : Option Onvif
  pub rtsp : Option Rtsp
  pub capture_interval_seconds : ℤ
  pub image : Option ImageProcessing
  pub upload : Option Upload
  pub queue : Option QueueCamera
  pub remote_path : Bytes
  pub interval_seconds : ℤ

pub record BackoffSettings : Type 0 where
  pub initial_seconds : ℤ
  pub max_seconds : ℤ
  pub multiplier : Ratio
  pub jitter : Bool

pub record DegradedSettings : Type 0 where
  pub enabled : Bool
  pub failure_threshold : ℤ
  pub concurrency_limit : ℤ
  pub slow_interval_multiplier : Ratio

pub record TimeAuthoritySettings : Type 0 where
  pub camera_tolerance_seconds : ℤ
  pub camera_warn_drift_seconds : ℤ
  pub camera_reject_drift_seconds : ℤ

pub record Global : Type 0 where
  pub capture_timeout_seconds : ℤ
  pub rtsp_timeout_seconds : ℤ
  pub max_concurrent_uploads : ℤ
  pub backoff : Option BackoffSettings
  pub degraded_mode : Option DegradedSettings
  pub time_authority : Option TimeAuthoritySettings

pub record QueueGlobal : Type 0 where
  pub base_path : Bytes
  pub max_total_size_mb : ℤ
  pub memory_check_seconds : ℤ
  pub emergency_thin_ratio : Ratio
  pub max_heap_mb : ℤ
  pub defaults : Option QueueCamera

pub record Sntp : Type 0 where
  pub enabled : Bool
  pub servers : List Bytes
  pub check_interval_seconds : ℤ
  pub max_offset_seconds : ℤ
  pub timeout_seconds : ℤ

abbrev pub default_sntp : Sntp
default_sntp = record {
  enabled = true;
  servers = codes "pool.ntp.org" ∷ codes "time.google.com" ∷ [];
  check_interval_seconds = pos 300;
  max_offset_seconds = pos 5;
  timeout_seconds = pos 5;
}

pub record BasicAuth : Type 0 where
  pub username : Bytes
  pub password : Bytes

pub record WebConsole : Type 0 where
  pub enabled : Bool
  pub port : ℤ
  pub password : Bytes
  pub basic_auth : Option BasicAuth

-- The configuration file of version 1, which is migrated.
pub record Config : Type 0 where
  pub version : ℤ
  pub timezone : Bytes
  pub cameras : List Camera
  pub global : Option Global
  pub queue : Option QueueGlobal
  pub sntp : Option Sntp
  pub web_console : Option WebConsole
  pub upload : Option Upload

pub record GlobalSettings : Type 0 where
  pub version : ℤ
  pub timezone : Bytes
  pub update_channel : Bytes
  pub max_concurrent_uploads : ℤ
  pub timeout_connect_seconds : ℤ
  pub timeout_upload_seconds : ℤ
  pub global : Option Global
  pub queue : Option QueueGlobal
  pub sntp : Option Sntp
  pub web_console : Option WebConsole

pub data ConfigEvent : Type 0 where
  camera_added camera_updated camera_deleted : Bytes → ConfigEvent
  global_updated : ConfigEvent

abbrev pub default_web_console : WebConsole
default_web_console = record {
  enabled = true;
  port = pos 1229;
  password = codes "aviationwx";
  basic_auth = none;
}

-- What NewService sets if the settings cannot be loaded.
abbrev pub default_settings : GlobalSettings
default_settings = record {
  version = pos 2;
  timezone = codes "UTC";
  update_channel = codes "latest";
  max_concurrent_uploads = pos 2;
  timeout_connect_seconds = pos 60;
  timeout_upload_seconds = pos 300;
  global = none;
  queue = none;
  sntp = some default_sntp;
  web_console = some default_web_console;
}
