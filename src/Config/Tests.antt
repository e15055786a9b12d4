-- ===== src/Config/Tests.antt =====
-- The theorems on internal/config at concrete configurations.
use aviationwx_org_bridge.Prelude.{◌≡◌, refl, true, false, List, [], ◌∷◌, Option, none, some}
use aviationwx_org_bridge.Prelude.Int.{pos}
use aviationwx_org_bridge.Files.Bytes.{Bytes, codes, has_suffix, bytes_eq}
use aviationwx_org_bridge.Files.Maps.{lookup, insert}
use aviationwx_org_bridge.Config.Types.{
  Camera, GlobalSettings, Config, default_settings, default_sntp,
}
use aviationwx_org_bridge.Config.Defaults.{get_web_password}
use aviationwx_org_bridge.Config.Store.{
  Json, ReadsBack, text, Disk, Faults, complete, file_of, has_slash, put,
}
use aviationwx_org_bridge.Config.Service.{Service, new_service, opened, already_exists}
use aviationwx_org_bridge.Config.Mirror.{Filed, Mirrors, put-Filed}
use aviationwx_org_bridge.Config.Calls.{updates, step, Sound, step-Sound}
use aviationwx_org_bridge.Config.Refines.{Shows, answer_of, view, step-Shows}
use aviationwx_org_bridge.Config.Loading.{normalized}
use aviationwx_org_bridge.Config.Reopen.{new_service-Mirrors}
use aviationwx_org_bridge.Config.Migrate.{
  Host, StartFaults, camera_failed, init_or_migrate, not_migrated,
}
use aviationwx_org_bridge.Config.Migration.{Works, DistinctIds, find_camera, old_host, prepared}
use aviationwx_org_bridge.Config.Restart.{
  StartsWith, init_or_migrate-StartsWith, init_or_migrate_twice,
}
use aviationwx_org_bridge.Config.Broken.{new_service_unparsed}

-- Texts that say what they are.
pub data Content : Type 0 where
  camera_text : Camera → Content
  settings_text : GlobalSettings → Content
  config_text : Config → Content
  garbage : Content

abbrev pub read_camera : Content → Option Camera
read_camera (camera_text c) = some c
read_camera _ = none

abbrev pub read_global : Content → Option GlobalSettings
read_global (settings_text g) = some g
read_global _ = none

abbrev read_config : Content → Option Config
read_config (config_text c) = some c
read_config _ = none

abbrev pub json : Json
json = record {
  Text = Content;
  of_camera = camera_text;
  of_settings = settings_text;
  to_camera = read_camera;
  to_settings = read_global;
  to_config = read_config;
}

pub json-ReadsBack : ReadsBack json
json-ReadsBack = record { camera_back = λ c. refl; settings_back = λ g. refl }

abbrev pub camera_of : Bytes → Camera
camera_of id = record {
  id = id;
  name = codes "Tower";
  kind = codes "http";
  enabled = true;
  snapshot_url = codes "http://10.0.0.2/snap.jpg";
  auth = none;
  onvif = none;
  rtsp = none;
  capture_interval_seconds = pos 60;
  image = none;
  upload = none;
  queue = none;
  remote_path = [];
  interval_seconds = pos 0;
}

abbrev pub no_faults : Faults Content
no_faults = record {
  writing = complete;
  backup = none;
  remove_fails = false;
  directory_unreadable = false;
}

abbrev pub tower : Bytes
tower = codes "tower"

abbrev with_cameras : List Camera → Config
with_cameras cs = record {
  version = pos 1;
  timezone = codes "Europe/Oslo";
  cameras = cs;
  global = none;
  queue = none;
  sntp = some default_sntp;
  web_console = none;
  upload = none;
}

-- A service with one camera.
abbrev pub one_camera : Service Content
one_camera = record {
  global = (prepared json (with_cameras [])).global;
  cameras = insert tower (camera_of tower) [];
  disk = record {
    settings_file = some (text (settings_text (prepared json (with_cameras [])).global));
    camera_files = put (file_of tower) (text (camera_text (camera_of tower))) [];
  };
  events = [];
}

empty-Filed : Filed json [] []
unfolding lookup
empty-Filed = record {
  named = λ id d h. absurd (cc (h));
  stored = λ id d h. absurd (cc (h));
  fits = tt;
}

pub one_camera-Mirrors : Mirrors json one_camera
one_camera-Mirrors = record {
  settings = refl;
  filed = put-Filed json [] (camera_of tower) [] empty-Filed;
}

-- The caller's function turns the camera off.
abbrev turn_off : Camera → Option Camera
turn_off c = some (record c { enabled = false })

step-Sound_example : Sound json one_camera (step json (updates tower turn_off) no_faults one_camera)
unfolding has_slash
step-Sound_example =
    step-Sound json json-ReadsBack (updates tower turn_off) no_faults one_camera refl
      one_camera-Mirrors

step-Shows_example :
    Shows json
      (step json (updates tower turn_off) no_faults one_camera)
      (answer_of json (updates tower turn_off) (view json one_camera))
step-Shows_example = step-Shows json (updates tower turn_off) no_faults one_camera refl refl

new_service-Mirrors_example :
    (s' : Service Content) × (new_service json no_faults one_camera.disk ≡ opened s')
    × (s'.global ≡ one_camera.global)
    × (s'.disk ≡ one_camera.disk)
    × ((id : Bytes) → lookup id s'.cameras ≡ normalized (lookup id one_camera.cameras))
new_service-Mirrors_example =
    new_service-Mirrors json json-ReadsBack no_faults one_camera default_sntp refl refl
      one_camera-Mirrors

abbrev start_faults : StartFaults Content
start_faults = record {
  opening = no_faults;
  settings = no_faults;
  camera = λ id. no_faults;
  rename_fails = false;
  reopening = no_faults;
}

start_faults-Works : Works json start_faults
start_faults-Works = record {
  opening = refl;
  settings = refl;
  camera = λ id. refl;
  readable = refl;
  readable_again = refl;
}

abbrev field : Bytes
field = codes "field"

abbrev two_cameras : List Camera
two_cameras = camera_of tower ∷ camera_of field ∷ []

two_cameras-DistinctIds : DistinctIds two_cameras
unfolding bytes_eq
two_cameras-DistinctIds = ((refl, tt), (tt, tt))

init_or_migrate-StartsWith_example :
    StartsWith json
      (prepared json (with_cameras two_cameras)).global
      two_cameras
      (init_or_migrate json start_faults (old_host json (config_text (with_cameras two_cameras))))
init_or_migrate-StartsWith_example =
    init_or_migrate-StartsWith json json-ReadsBack start_faults
      (config_text (with_cameras two_cameras)) (with_cameras two_cameras) default_sntp refl refl
      two_cameras-DistinctIds start_faults-Works

-- The third camera has the id of the first.
abbrev repeated : Config
repeated = with_cameras (camera_of tower ∷ camera_of field ∷ camera_of tower ∷ [])

find_tower : find_camera tower two_cameras ≡ some (camera_of tower)
unfolding find_camera bytes_eq
find_tower = refl

init_or_migrate_twice_example :
    (h : Host Content) × (init_or_migrate json start_faults (old_host json (config_text repeated))
      ≡ not_migrated (camera_failed already_exists) h)
    × (h.legacy ≡ some (text (config_text repeated)))
    × StartsWith json
        (prepared json repeated).global
        two_cameras
        (init_or_migrate json start_faults h)
init_or_migrate_twice_example =
    init_or_migrate_twice json json-ReadsBack start_faults (config_text repeated) repeated
      default_sntp two_cameras [] (camera_of tower) (camera_of tower) refl refl refl
      two_cameras-DistinctIds find_tower start_faults-Works

-- A good file and a broken one.
abbrev half_broken : Disk Content
half_broken = record {
  settings_file = some (text (settings_text (prepared json (with_cameras [])).global));
  camera_files =
      (file_of field, text garbage) ∷ (file_of tower, text (camera_text (camera_of tower))) ∷ [];
}

field_there : lookup (file_of field) half_broken.camera_files ≡ some (text garbage)
unfolding lookup bytes_eq
field_there = refl

field-Json : has_suffix (file_of field) (codes ".json") ≡ true
unfolding has_suffix bytes_eq
field-Json = refl

new_service_unparsed_example :
    (s : Service Content) × (new_service json no_faults half_broken ≡ opened s)
    × (s.global ≡ default_settings)
    × (s.disk.settings_file ≡ some (text (settings_text default_settings)))
    × (get_web_password s.global ≡ codes "aviationwx")
new_service_unparsed_example =
    new_service_unparsed json no_faults half_broken (prepared json (with_cameras [])).global
      (file_of field) garbage refl refl refl field_there field-Json refl
