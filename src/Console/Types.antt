-- ===== src/Console/Types.antt =====
-- The requests that internal/web/server.go gets and the replies that it gives. What a body says is what
-- encoding/json reads of it; headers but for the credentials are left out.
use aviationwx_org_bridge.Prelude.{Bool, List, Option}
use aviationwx_org_bridge.Prelude.Int.{ℤ}
use aviationwx_org_bridge.Files.Bytes.{Bytes}
use aviationwx_org_bridge.Config.Types.{
  Auth, Onvif, Rtsp, ImageProcessing, Upload, QueueCamera, Camera, GlobalSettings,
}
use aviationwx_org_bridge.Config.Service.{Service}
use aviationwx_org_bridge.Logs.Buffer.{LogEntry, Buffer}
use aviationwx_org_bridge.Console.Status.{Value, HealthReport}

pub data Method : Type 0 where
  method_get method_post method_put method_delete other_method : Method

-- json.NewDecoder(r.Body).Decode, for each type that a handler asks for.
pub record Decoder : Type 1 where
  pub Body : Type 0
  pub body_camera : Body → Option Camera
  pub body_settings : Body → Option GlobalSettings
  pub body_timezone : Body → Option Bytes
  pub body_upload : Body → Option Upload

-- With r.BasicAuth(): the name and the password, and with the number that Sscanf reads in the query
-- parameter tail, if there is one. The path is one that ServeMux does not clean.
pub record Request (B : Type 0) : Type 0 where
  pub method : Method
  pub path : Bytes
  pub credentials : Option (Bytes × Bytes)
  pub body : B
  pub tail : Option ℤ

-- cameraToMap, without the status of the worker.
pub record CameraMap : Type 0 where
  pub id : Bytes
  pub name : Bytes
  pub kind : Bytes
  pub enabled : Bool
  pub snapshot_url : Bytes
  pub capture_interval_seconds : ℤ
  pub timezone : Bytes
  pub auth : Option Auth
  pub onvif : Option Onvif
  pub rtsp : Option Rtsp
  pub image : Option ImageProcessing
  pub upload : Option Upload
  pub queue : Option QueueCamera

-- http.Error with a status, a redirect to the login page, a page, or a panic, which ends the connection.
pub data Reply : Type 0 where
  failed : ℤ → Reply
  to_login aborted ok no_content file_served : Reply
  status_page : Value → Reply
  settings_page : GlobalSettings → Reply
  camera_list : List CameraMap → Reply
  camera_page : CameraMap → Reply
  camera_created : CameraMap → Reply
  time_page : Bytes → Reply
  image : Bytes → Reply
  logs_page : List LogEntry → Reply
  health_page : ℤ → HealthReport → Reply

-- What the server is connected to: the callbacks of cmd/bridge/main.go, the clock and the buffer of the log.
pub record Callbacks : Type 0 where
  pub daemon_status : Value
  pub test_camera : Camera → Option Bytes
  pub test_upload : Upload → Bool
  pub camera_image : Bytes → Option Bytes
  pub now_unix : ℤ
  pub trigger_fails : Bool
  pub log : Buffer

-- The configuration service, and whether an update was triggered.
pub record Console (T : Type 0) : Type 0 where
  pub service : Service T
  pub triggered : Bool
