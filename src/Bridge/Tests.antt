-- ===== src/Bridge/Tests.antt =====
-- The theorems on cmd/bridge/main.go and internal/scheduler/orchestrator.go at concrete events.
use aviationwx_org_bridge.Prelude.{
  arith, ◌≡◌, refl, Bool, true, false, List, [], ◌∷◌, none, some, if◌then◌else◌, ◌*◌,
}
use aviationwx_org_bridge.Prelude.Int.{pos, ◌-ℤ◌}
use aviationwx_org_bridge.Prelude.Clock.{GoTime, second}
use aviationwx_org_bridge.Files.Bytes.{Bytes, codes, bytes_eq}
use aviationwx_org_bridge.Files.Maps.{insert, erase}
use aviationwx_org_bridge.Queue.Manager.{Manager, new_manager, default_global_queue_config}
use aviationwx_org_bridge.Queue.Tests.{reliable}
use aviationwx_org_bridge.Config.Types.{
  Camera, default_settings, camera_added, camera_updated, global_updated,
}
use aviationwx_org_bridge.Config.Service.{Service, list_cameras, sort_by_id}
use aviationwx_org_bridge.Config.Tests.{Content, json, camera_of, tower}
use aviationwx_org_bridge.Bridge.Events.{World, then_handle, handle_config_event}
use aviationwx_org_bridge.Bridge.Start.{start_bridge}
use aviationwx_org_bridge.Bridge.Kept.{Moment, handle_all, HoldsAfter}
use aviationwx_org_bridge.Bridge.Asleep.{Asleep, start_bridge-handle_all}
use aviationwx_org_bridge.Bridge.Uploading.{NoUploads, start_bridge_disabled}
use aviationwx_org_bridge.Bridge.Paired.{Paired, start_bridge-Paired}
use aviationwx_org_bridge.Bridge.Zones.{InZone, sntp_on, global_updated-InZone}

abbrev in_utc : GoTime → GoTime
in_utc t = t

abbrev world : World
world = record {
  now = pos (1_735_142_730 * second);
  environment = λ id. reliable;
  files = λ id. [];
  load_location = λ zone. if bytes_eq zone (codes "UTC") then some in_utc else none;
  local = λ t. t -ℤ pos (7_200 * second);
}

abbrev full_camera : Bool → Camera
full_camera on = record (camera_of tower) {
  enabled = on;
  upload = some (record {
    protocol = codes "ftps";
    host = codes "upload.aviationwx.org";
    port = pos 2121;
    username = codes "user";
    password = codes "secret";
    base_path = [];
    timeout_connect_seconds = pos 0;
    timeout_upload_seconds = pos 0;
  });
}

abbrev service_of : List (Bytes × Camera) → Service Content
service_of cs = record {
  global = default_settings;
  cameras = cs;
  disk = record { settings_file = none; camera_files = [] };
  events = [];
}

abbrev manager : Manager
manager = new_manager default_global_queue_config

-- The camera is added, and then turned on.
abbrev moments : List (Moment json)
moments =
    record {
      world = world;
      service = service_of (insert tower (full_camera false) []);
      event = camera_added tower;
    }
    ∷ record {
      world = world;
      service = service_of (insert tower (full_camera true) []);
      event = camera_updated tower;
    }
    ∷ []

no_cameras : list_cameras json (service_of []) ≡ []
unfolding list_cameras sort_by_id
no_cameras = refl

start_bridge-handle_all_example : HoldsAfter Asleep (
    then_handle json
      (start_bridge json world (service_of []) (some manager))
      (handle_all json moments))
start_bridge-handle_all_example =
    start_bridge-handle_all json world (service_of []) manager moments no_cameras

start_bridge_disabled_example : HoldsAfter NoUploads (
    then_handle json
      (start_bridge json world (service_of (insert tower (full_camera false) [])) (some manager))
      (handle_all json moments))
unfolding list_cameras sort_by_id erase
start_bridge_disabled_example =
    start_bridge_disabled json world (service_of (insert tower (full_camera false) [])) manager
      moments (refl, tt)

start_bridge-Paired_example : HoldsAfter Paired (
    then_handle json
      (start_bridge json world (service_of (insert tower (full_camera true) [])) (some manager))
      (handle_all json moments))
start_bridge-Paired_example =
    start_bridge-Paired json world (service_of (insert tower (full_camera true) [])) manager moments
      (omega arith) (omega arith, (omega arith, tt)) refl

zone_known : world.load_location (codes "UTC") ≡ some in_utc
unfolding bytes_eq
zone_known = refl

global_updated-InZone_example :
    HoldsAfter (InZone (if sntp_on default_settings.sntp then world.local else in_utc)) (
      then_handle json
        (then_handle json
          (start_bridge json world (service_of []) (some manager))
          (handle_all json moments))
        (handle_config_event json world (service_of []) global_updated))
global_updated-InZone_example =
    global_updated-InZone json world (service_of []) manager moments world (service_of []) in_utc
      refl zone_known
