-- ===== src/Console/Serve.antt =====
-- The routes of internal/web/server.go with their middleware: setupRoutes, authMiddleware and
-- staticMiddleware.
use aviationwx_org_bridge.Prelude.{Bool, true, false, ◌||◌, Option, none, some, if◌then◌else◌}
use aviationwx_org_bridge.Prelude.Int.{pos}
use aviationwx_org_bridge.Files.Bytes.{Bytes, codes, bytes_eq}
use aviationwx_org_bridge.Config.Defaults.{get_web_password}
use aviationwx_org_bridge.Config.Store.{Json, Faults}
use aviationwx_org_bridge.Config.Service.{Service}
use aviationwx_org_bridge.Console.Types.{
  Decoder, Request, Reply, failed, to_login, file_served, Callbacks, Console,
}
use aviationwx_org_bridge.Console.Updates.{strip_prefix}
use aviationwx_org_bridge.Console.Handlers.{
  handle_status, handle_config, handle_cameras, handle_camera, handle_time, handle_test_camera,
  handle_test_upload, handle_update, handle_logs, handle_healthz,
}

-- What serves a path; a camera has the path after /api/cameras/.
pub data Route : Type 0 where
  status_route config_route cameras_route time_route test_camera_route test_upload_route : Route
  update_route healthz_route logs_route static_route : Route
  camera_route : Bytes → Route

abbrev pub camera_or_static : Option Bytes → Route
camera_or_static none = static_route
camera_or_static (some rest) = camera_route rest

unfoldable pub route_of : Bytes → Route
unfolding strip_prefix
route_of path =
    if bytes_eq path (codes "/api/status")
    then status_route
    else if bytes_eq path (codes "/api/config")
    then config_route
    else if bytes_eq path (codes "/api/cameras")
    then cameras_route
    else if bytes_eq path (codes "/api/time")
    then time_route
    else if bytes_eq path (codes "/api/test/camera")
    then test_camera_route
    else if bytes_eq path (codes "/api/test/upload")
    then test_upload_route
    else if bytes_eq path (codes "/api/update")
    then update_route
    else if bytes_eq path (codes "/healthz")
    then healthz_route
    else if bytes_eq path (codes "/api/logs")
    then logs_route
    else camera_or_static (strip_prefix (codes "/api/cameras/") path)

abbrev pub begins : Bytes → Bytes → Bool
begins p s = elim (strip_prefix p s) [ none ↦ false | some rest ↦ true ]

-- What the login page needs.
unfoldable pub is_login_asset : Bytes → Bool
unfolding strip_prefix
is_login_asset path =
    bytes_eq path (codes "/") || begins (codes "/css/") path || begins (codes "/js/") path

module _ (J : Json) (D : Decoder) where
  open J use {Text}
  open D use {Body, body_camera, body_settings, body_timezone, body_upload}

  -- The name is not looked at.
  unfoldable pub authorized : Option (Bytes × Bytes) → Service Text → Bool
  authorized none s = false
  authorized (some (user, password)) s = bytes_eq password (get_web_password s.global)

  -- authMiddleware.
  abbrev pub with_auth : Request Body → Console Text → Reply × Console Text → Reply × Console Text
  with_auth r k answer =
      if authorized r.credentials k.service then answer else (failed (pos 401), k)

  unfoldable pub handle_static : Request Body → Console Text → Reply × Console Text
  unfolding is_login_asset authorized
  handle_static r k =
      if is_login_asset r.path
      then (file_served, k)
      else if authorized r.credentials k.service
      then (file_served, k)
      else (to_login, k)

  unfoldable pub serve_route :
      Callbacks → Route → Request Body → Faults Text → Console Text → Reply × Console Text
  unfolding handle_static authorized handle_status handle_config handle_cameras handle_camera
      handle_time handle_test_camera handle_test_upload handle_update handle_logs handle_healthz
  serve_route cb status_route r f k = with_auth r k (handle_status J cb r.method k)
  serve_route cb config_route r f k =
      with_auth r k (handle_config J r.method (body_settings r.body) f k)
  serve_route cb cameras_route r f k =
      with_auth r k (handle_cameras J cb r.method (body_camera r.body) f k)
  serve_route cb (camera_route rest) r f k =
      with_auth r k (handle_camera J cb r.method rest (body_camera r.body) f k)
  serve_route cb time_route r f k =
      with_auth r k (handle_time J r.method (body_timezone r.body) f k)
  serve_route cb test_camera_route r f k =
      with_auth r k (handle_test_camera J cb r.method (body_camera r.body) k)
  serve_route cb test_upload_route r f k =
      with_auth r k (handle_test_upload J cb r.method (body_upload r.body) k)
  serve_route cb update_route r f k = with_auth r k (handle_update J cb r.method k)
  serve_route cb logs_route r f k = with_auth r k (handle_logs J cb r.tail k)
  serve_route cb healthz_route r f k = handle_healthz J cb k
  serve_route cb static_route r f k = handle_static r k

  -- The answer to a request, and what it leaves.
  unfoldable pub serve :
      Callbacks → Request Body → Faults Text → Console Text → Reply × Console Text
  unfolding serve_route route_of
  serve cb r f k = serve_route cb (route_of r.path) r f k
