-- ===== src/Console/Tests.antt =====
-- The theorems on internal/web/server.go at concrete requests.
use aviationwx_org_bridge.Prelude.{◌≡◌, refl, true, false, [], ◌∷◌, none, some}
use aviationwx_org_bridge.Prelude.Int.{pos}
use aviationwx_org_bridge.Files.Bytes.{Bytes, codes, bytes_eq}
use aviationwx_org_bridge.Files.Maps.{lookup}
use aviationwx_org_bridge.Config.Types.{Camera, default_settings}
use aviationwx_org_bridge.Config.Defaults.{get_web_password}
use aviationwx_org_bridge.Config.Tests.{
  Content, json, json-ReadsBack, camera_of, tower, no_faults, one_camera, one_camera-Mirrors,
  read_camera, read_global,
}
use aviationwx_org_bridge.Logs.Buffer.{new_buffer}
use aviationwx_org_bridge.Console.Status.{
  Parts, get_status, build_health_status, degraded, orchestrator_not_running,
}
use aviationwx_org_bridge.Console.Types.{
  Decoder, Request, method_delete, Callbacks, Console, camera_page,
}
use aviationwx_org_bridge.Console.Updates.{camera_to_map}
use aviationwx_org_bridge.Console.Handlers.{handle_update_camera}
use aviationwx_org_bridge.Console.Serve.{route_of, authorized, serve}
use aviationwx_org_bridge.Console.Access.{open_reply, serve_unauthorized}
use aviationwx_org_bridge.Console.Kept.{Kept, serve-Kept}
use aviationwx_org_bridge.Console.Secrets.{Merged, handle_update_camera-Merged}
use aviationwx_org_bridge.Console.Health.{misread, build_health_status-get_status}

-- Bodies are the texts of the configuration.
abbrev decoder : Decoder
decoder = record {
  Body = Content;
  body_camera = read_camera;
  body_settings = read_global;
  body_timezone = λ b. none;
  body_upload = λ b. none;
}

abbrev parts : Parts
parts = record {
  version = codes "2.1.0";
  commit = codes "abc1234";
  queued_images = pos 3;
  uploads_today = pos 40;
  system = none;
  has_orchestrator = true;
  time_health = none;
  update = none;
}

abbrev callbacks : Callbacks
callbacks = record {
  daemon_status = get_status parts default_settings (camera_of tower ∷ []);
  test_camera = λ c. none;
  test_upload = λ u. true;
  camera_image = λ id. none;
  now_unix = pos 1_735_142_730;
  trigger_fails = false;
  log = new_buffer 1000;
}

abbrev console : Console Content
console = record { service = one_camera; triggered = false }

-- A deletion with some password.
abbrev deletion : Bytes → Request Content
deletion password = record {
  method = method_delete;
  path = codes "/api/cameras/tower";
  credentials = some (codes "admin", password);
  body = Content.garbage;
  tail = none;
}

guess_refused : authorized json decoder (deletion (codes "guess")).credentials one_camera ≡ false
unfolding authorized get_web_password bytes_eq
guess_refused = refl

serve_unauthorized_example :
    serve json decoder callbacks (deletion (codes "guess")) no_faults console ≡ (
      open_reply json callbacks
          (codes "/api/cameras/tower")
          (route_of (codes "/api/cameras/tower")),
      console,
    )
serve_unauthorized_example =
    serve_unauthorized json decoder callbacks (deletion (codes "guess")) no_faults console
      guess_refused

serve-Kept_example :
    Kept json console
      (serve json decoder callbacks (deletion (codes "aviationwx")) no_faults console)
serve-Kept_example =
    serve-Kept json decoder json-ReadsBack callbacks (deletion (codes "aviationwx")) no_faults
      console (λ c e. absurd (cc (e))) one_camera-Mirrors

abbrev renamed : Camera
renamed = record (camera_of tower) { name = codes "North tower" }

tower_known : lookup tower one_camera.cameras ≡ some (camera_of tower)
unfolding lookup bytes_eq
tower_known = refl

handle_update_camera-Merged_example :
    (d : Camera) × (k' : Console Content) × (handle_update_camera json tower
        (some renamed)
        no_faults
        console
      ≡ (camera_page (camera_to_map k'.service.global.timezone d), k'))
    × (lookup tower k'.service.cameras ≡ some d)
    × Merged tower renamed (camera_of tower) d
handle_update_camera-Merged_example =
    handle_update_camera-Merged json tower renamed (camera_of tower) no_faults console refl
      tower_known

build_health_status-get_status_example :
    build_health_status (get_status parts default_settings (camera_of tower ∷ [])) ≡ record {
      status = degraded;
      details = orchestrator_not_running ∷ [];
      indicators = some misread;
    }
build_health_status-get_status_example =
    build_health_status-get_status parts default_settings (camera_of tower ∷ [])
