-- ===== src/Console/Updates.antt =====
-- What the handlers of internal/web/server.go make of the body and the path of a request: the fields that an
-- update changes, the defaults of a new camera, and the parts of a path.
use aviationwx_org_bridge.Prelude.{[], ◌∷◌, ◌++◌, Option, none, some, if◌then◌else◌, ◌==◌}
use aviationwx_org_bridge.Prelude.Int.{ℤ, pos}
use aviationwx_org_bridge.Files.Bytes.{Bytes, codes}
use aviationwx_org_bridge.Files.Decimal.{show_int}
use aviationwx_org_bridge.Config.Types.{Auth, Onvif, Rtsp, Upload, Camera, GlobalSettings}
use aviationwx_org_bridge.Config.Defaults.{or_default, default_port}
use aviationwx_org_bridge.Config.Validator.{is_blank}
use aviationwx_org_bridge.Console.Types.{CameraMap}

-- A value that an update leaves out is kept.
abbrev pub or_keep {ℓ} : {A : Type ℓ} → Option A → Option A → Option A
or_keep none old = old
or_keep (some new) old = some new

unfoldable pub merge_settings : GlobalSettings → GlobalSettings → Option GlobalSettings
merge_settings u g = some (record g {
  timezone = if is_blank u.timezone then g.timezone else u.timezone;
  web_console = or_keep u.web_console g.web_console;
  global = or_keep u.global g.global;
  queue = or_keep u.queue g.queue;
  sntp = or_keep u.sntp g.sntp;
})

-- "Preserve passwords if empty", for the four settings that have one.
abbrev pub kept_password : Bytes → Bytes → Bytes
kept_password new old = if is_blank new then old else new

unfoldable pub keep_upload : Option Upload → Option Upload → Option Upload
keep_upload (some u) (some o) = some (record u { password = kept_password u.password o.password })
keep_upload u _ = u

unfoldable pub keep_auth : Option Auth → Option Auth → Option Auth
keep_auth (some u) (some o) = some (record u { password = kept_password u.password o.password })
keep_auth u _ = u

unfoldable pub keep_rtsp : Option Rtsp → Option Rtsp → Option Rtsp
keep_rtsp (some u) (some o) = some (record u { password = kept_password u.password o.password })
keep_rtsp u _ = u

unfoldable pub keep_onvif : Option Onvif → Option Onvif → Option Onvif
keep_onvif (some u) (some o) = some (record u { password = kept_password u.password o.password })
keep_onvif u _ = u

-- What updateCamera makes of a camera; the id, the remote path and the old interval stay.
unfoldable pub merge_camera : Camera → Camera → Option Camera
unfolding keep_upload keep_auth keep_rtsp keep_onvif
merge_camera u c = some (record c {
  name = u.name;
  kind = u.kind;
  enabled = u.enabled;
  snapshot_url = u.snapshot_url;
  capture_interval_seconds = u.capture_interval_seconds;
  auth = keep_auth u.auth c.auth;
  onvif = keep_onvif u.onvif c.onvif;
  rtsp = keep_rtsp u.rtsp c.rtsp;
  image = u.image;
  upload = keep_upload u.upload c.upload;
  queue = u.queue;
})

abbrev pub camera_to_map : Bytes → Camera → CameraMap
camera_to_map zone c = record {
  id = c.id;
  name = c.name;
  kind = c.kind;
  enabled = c.enabled;
  snapshot_url = c.snapshot_url;
  capture_interval_seconds = c.capture_interval_seconds;
  timezone = zone;
  auth = c.auth;
  onvif = c.onvif;
  rtsp = c.rtsp;
  image = c.image;
  upload = c.upload;
  queue = c.queue;
}

-- What addCamera fills in before it asks the service, for a camera with upload settings.
unfoldable pub prepare_camera : ℤ → Camera → Upload → Camera
unfolding show_int
prepare_camera now c u =
    let id = if is_blank c.id then codes "cam-" ++ show_int now else c.id in
    record c {
      id = id;
      name = if is_blank c.name then id else c.name;
      capture_interval_seconds = or_default (pos 60) c.capture_interval_seconds;
      upload = some (record u {
        host = if is_blank u.host then codes "upload.aviationwx.org" else u.host;
        port = or_default default_port u.port;
      });
    }

-- The path up to the first slash, and after it.
unfoldable pub segment : Bytes → Bytes
segment [] = []
segment (c ∷ cs) = let rest = segment cs in if c == b'/' then [] else c ∷ rest

unfoldable pub after_slash : Bytes → Bytes
after_slash [] = []
after_slash (c ∷ cs) = let rest = after_slash cs in if c == b'/' then cs else rest

-- What is left of a path after a prefix that it has.
unfoldable pub strip_prefix : Bytes → Bytes → Option Bytes
strip_prefix [] s = some s
strip_prefix (p ∷ ps) [] = none
strip_prefix (p ∷ ps) (c ∷ cs) = let rest = strip_prefix ps cs in if p == c then rest else none
