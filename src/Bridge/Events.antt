-- ===== src/Bridge/Events.antt =====
-- cmd/bridge/main.go: what the daemon does when the configuration has changed, and how it adds a camera. What
-- the web console shows is left out but for the status of the workers.
use aviationwx_org_bridge.Prelude.{ℕ, Bool, true, false, List, Option, none, some, if◌then◌else◌}
use aviationwx_org_bridge.Prelude.Int.{pos, ◌≤ℤ◌}
use aviationwx_org_bridge.Prelude.Clock.{GoTime}
use aviationwx_org_bridge.Files.Bytes.{Bytes, codes}
use aviationwx_org_bridge.Files.Entry.{Entry}
use aviationwx_org_bridge.Files.Maps.{insert, erase}
use aviationwx_org_bridge.Queue.Types.{Environment}
use aviationwx_org_bridge.Queue.Manager.{ManagerResult, done}
use aviationwx_org_bridge.Time.Health.{TimeHealth, new_time_health}
use aviationwx_org_bridge.Time.Authority.{Authority, default_authority_config}
use aviationwx_org_bridge.Uploads.Types.{client}
use aviationwx_org_bridge.Config.Types.{
  Camera, Sntp, Upload, ConfigEvent, camera_added, camera_updated, camera_deleted, global_updated,
}
use aviationwx_org_bridge.Config.Defaults.{or_default}
use aviationwx_org_bridge.Config.Validator.{is_blank}
use aviationwx_org_bridge.Config.Store.{Json}
use aviationwx_org_bridge.Config.Service.{Service, get_camera}
use aviationwx_org_bridge.Bridge.Clients.{
  CameraClient, UploadConfig, create_camera, new_client_from_config,
}
use aviationwx_org_bridge.Bridge.Orchestrator.{
  Orchestrator, Addition, add_camera, remove_camera, set_time_authority,
}

-- What the system gives while an event is handled: the time, the directories of the queues, and the
-- zone database with the zone of the system.
pub record World : Type 0 where
  pub now : GoTime
  pub environment : Bytes → Environment
  pub files : Bytes → List Entry
  pub load_location : Bytes → Option (GoTime → GoTime)
  pub local : GoTime → GoTime

pub data AddError : Type 0 where
  no_camera no_upload_settings no_uploader : AddError
  not_added : ManagerResult → AddError

pub record CameraWorkerStatus : Type 0 where
  pub is_running : Bool
  pub last_error : Option AddError
  pub error_count : ℕ
  pub last_attempt : GoTime

-- Bridge, with the time of each cached preview in place of the image.
pub record Bridge : Type 0 where
  pub orchestrator : Option Orchestrator
  pub time_health : Option TimeHealth
  pub worker_status : List (Bytes × CameraWorkerStatus)
  pub last_captures : List (Bytes × GoTime)

-- A handler ends, or dereferences the orchestrator that is not there.
pub data Handled : Type 0 where
  handled : Bridge → Handled
  panics : Handled

-- NewAuthority with the default configuration and a zone; none is an error.
unfoldable pub new_authority : World → Option TimeHealth → Bytes → Option Authority
new_authority w th zone =
    if is_blank zone
    then some (record { ntp_health = th; to_utc = w.local; config = default_authority_config })
    else elim (w.load_location zone) [
      | none ↦ none
      | some z ↦ some (record { ntp_health = th; to_utc = z; config = default_authority_config })
    ]

abbrev pub use_authority : Option Authority → Orchestrator → Orchestrator
use_authority none o = o
use_authority (some a) o = set_time_authority (some a) o

-- SetTimeHealth of the orchestrator.
abbrev pub set_time_health : World → Option TimeHealth → Orchestrator → Orchestrator
set_time_health w th o = use_authority (new_authority w th o.config.timezone) o

abbrev pub map_orchestrator : (Orchestrator → Orchestrator) → Bridge → Bridge
map_orchestrator f b = record b {
  orchestrator = elim b.orchestrator [ none ↦ none | some o ↦ some (f o) ];
}

unfoldable pub update_timezone : World → Bytes → Bridge → Bridge
unfolding new_authority
update_timezone w zone b = map_orchestrator (use_authority (new_authority w b.time_health zone)) b

-- The interval of the time check is not negative: with a negative one the goroutine that Start makes
-- panics in time.NewTicker, which ends the daemon, whatever its handlers do.
abbrev pub NonNegative : Option Sntp → Type 0
NonNegative none = Unit
NonNegative (some s) = pos 0 ≤ℤ s.check_interval_seconds

abbrev pub sntp_health : Sntp → TimeHealth
sntp_health s = new_time_health (record {
  servers = s.servers;
  check_interval_seconds = s.check_interval_seconds;
  max_offset_seconds = s.max_offset_seconds;
})

unfoldable pub restart_sntp : World → Option Sntp → Bridge → Bridge
unfolding new_authority
restart_sntp w none b = record b { time_health = none }
restart_sntp w (some s) b =
    if s.enabled
    then map_orchestrator (set_time_health w (some (sntp_health s)))
        (record b { time_health = some (sntp_health s) })
    else record b { time_health = none }

abbrev pub set_status : Bytes → CameraWorkerStatus → Bridge → Bridge
set_status id s b = record b { worker_status = insert id s b.worker_status }

abbrev pub failed_status : GoTime → AddError → CameraWorkerStatus
failed_status now e = record {
  is_running = false;
  last_error = some e;
  error_count = 1;
  last_attempt = now;
}

abbrev pub running_status : GoTime → CameraWorkerStatus
running_status now = record {
  is_running = true;
  last_error = none;
  error_count = 0;
  last_attempt = now;
}

abbrev pub addition : World → Camera → ℕ → Addition
addition w c address = record {
  id = c.id;
  remote_path = if is_blank c.remote_path then codes "." else c.remote_path;
  interval_secs = or_default (pos 60) c.capture_interval_seconds;
  uploader = client address;
  environment = w.environment c.id;
  files = w.files c.id;
}

abbrev pub after_add : World → Bytes → ManagerResult × Orchestrator → Bridge → Bridge
after_add w id (done, o) b =
    set_status id (running_status w.now) (record b { orchestrator = some o })
after_add w id (r, o) b =
    set_status id (failed_status w.now (not_added r)) (record b { orchestrator = some o })

-- addCamera, after the clients were made.
unfoldable pub add_to : World → Camera → Option Orchestrator → Bridge → Handled
add_to w c none b = panics
add_to w c (some o) b = handled (after_add w c.id (add_camera w.now (addition w c o.addresses) o) b)

unfoldable pub with_uploader : World → Camera → Option UploadConfig → Bridge → Handled
unfolding add_to
with_uploader w c none b = handled (set_status c.id (failed_status w.now no_uploader) b)
with_uploader w c (some u) b = add_to w c b.orchestrator b

unfoldable pub with_upload : World → Camera → Option Upload → Bridge → Handled
unfolding with_uploader
with_upload w c none b = handled (set_status c.id (failed_status w.now no_upload_settings) b)
with_upload w c (some u) b = with_uploader w c (new_client_from_config u) b

unfoldable pub with_camera : World → Camera → Option CameraClient → Bridge → Handled
unfolding with_upload
with_camera w c none b = handled (set_status c.id (failed_status w.now no_camera) b)
with_camera w c (some k) b = with_upload w c c.upload b

-- addCamera.
unfoldable pub bridge_add : World → Camera → Bridge → Handled
unfolding with_camera
bridge_add w c b = with_camera w c (create_camera c) b

abbrev pub add_enabled : World → Camera → Bridge → Handled
add_enabled w c b = if c.enabled then bridge_add w c b else handled b

unfoldable pub remove_worker : Bytes → Bridge → Bridge
remove_worker id b = map_orchestrator (λ o. (remove_camera id o).1) b

abbrev pub forget_status : Bytes → Bridge → Bridge
forget_status id b = record b { worker_status = erase id b.worker_status }

abbrev pub or_add : World → Option Camera → (Bridge → Bridge) → Bridge → Handled
or_add w none prepare b = handled b
or_add w (some c) prepare b = add_enabled w c (prepare b)

module _ (J : Json) where
  open J use {Text}

  -- handleConfigEvent, with the configuration as it is when the event is handled.
  unfoldable pub handle_config_event : World → Service Text → ConfigEvent → Bridge → Handled
  unfolding remove_worker update_timezone restart_sntp
  handle_config_event w s (camera_added id) b = or_add w (get_camera J id s) (λ x. x) b
  handle_config_event w s (camera_updated id) b =
      or_add w (get_camera J id s) (λ x. forget_status id (remove_worker id x)) b
  handle_config_event w s (camera_deleted id) b =
      let b' = forget_status id (remove_worker id b) in
      handled (record b' { last_captures = erase id b'.last_captures })
  handle_config_event w s global_updated b =
      handled (restart_sntp w s.global.sntp (update_timezone w s.global.timezone b))

  abbrev pub then_handle : Handled → (Bridge → Handled) → Handled
  then_handle (handled b) next = next b
  then_handle panics next = panics
