-- ===== src/Bridge/Clients.antt =====
-- The clients that are made from a configuration: NewCamera of internal/camera/factory.go with
-- NewHTTPCamera, NewONVIFCamera and NewRTSPCamera, NewClientFromConfig of internal/upload/factory.go
-- with NewSFTPClient, and createCamera of cmd/bridge/main.go.
use aviationwx_org_bridge.Prelude.{Bool, ◌||◌, [], Option, none, some, if◌then◌else◌}
use aviationwx_org_bridge.Prelude.Int.{ℤ, pos}
use aviationwx_org_bridge.Files.Bytes.{Bytes, codes, bytes_eq}
use aviationwx_org_bridge.Config.Types.{Camera, Upload, Onvif, Rtsp, Auth}
use aviationwx_org_bridge.Config.Defaults.{trim_space, to_lower, sftp, default_port, or_default}
use aviationwx_org_bridge.Config.Validator.{is_blank}

-- The settings of a capture client; the settings of the other kinds are not looked at.
pub data CameraClient : Type 0 where
  http_camera : Bytes → Option Auth → CameraClient
  onvif_camera : Onvif → CameraClient
  rtsp_camera : Rtsp → CameraClient

unfoldable pub new_http_camera : Camera → Option CameraClient
new_http_camera c =
    if is_blank c.snapshot_url then none else some (http_camera c.snapshot_url c.auth)

unfoldable pub new_onvif_camera : Option Onvif → Option CameraClient
new_onvif_camera none = none
new_onvif_camera (some o) =
    if is_blank o.endpoint
    then none
    else if is_blank o.username
    then none
    else if is_blank o.password
    then none
    else some (onvif_camera o)

unfoldable pub new_rtsp_camera : Option Rtsp → Option CameraClient
new_rtsp_camera none = none
new_rtsp_camera (some r) = if is_blank r.url then none else some (rtsp_camera r)

-- createCamera and NewCamera; none is an error.
unfoldable pub create_camera : Camera → Option CameraClient
unfolding new_http_camera new_onvif_camera new_rtsp_camera
create_camera c =
    if bytes_eq c.kind (codes "http")
    then new_http_camera c
    else if bytes_eq c.kind (codes "onvif")
    then new_onvif_camera c.onvif
    else if bytes_eq c.kind (codes "rtsp")
    then new_rtsp_camera c.rtsp
    else none

pub record UploadConfig : Type 0 where
  pub host : Bytes
  pub port : ℤ
  pub username : Bytes
  pub password : Bytes
  pub timeout_connect_seconds : ℤ
  pub timeout_upload_seconds : ℤ
  pub base_path : Bytes

-- The default of the client is port 22.
unfoldable pub new_sftp_client : UploadConfig → Option UploadConfig
new_sftp_client c =
    if is_blank c.host
    then none
    else if is_blank c.username
    then none
    else if is_blank c.password
    then none
    else some (record c { port = or_default (pos 22) c.port })

-- ftps, ftp and nothing stand for sftp.
abbrev pub is_sftp : Bytes → Bool
is_sftp protocol =
    bytes_eq protocol []
    || bytes_eq protocol (codes "ftps")
    || bytes_eq protocol (codes "ftp")
    || bytes_eq protocol sftp

unfoldable pub new_client_from_config : Upload → Option UploadConfig
unfolding new_sftp_client
new_client_from_config u =
    if is_sftp (to_lower (trim_space u.protocol))
    then new_sftp_client (record {
      host = u.host;
      port = or_default default_port u.port;
      username = u.username;
      password = u.password;
      timeout_connect_seconds = u.timeout_connect_seconds;
      timeout_upload_seconds = u.timeout_upload_seconds;
      base_path = if is_blank u.base_path then codes "/files" else u.base_path;
    })
    else none
