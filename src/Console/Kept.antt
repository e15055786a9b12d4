-- ===== src/Console/Kept.antt =====
-- What the requests to internal/web/server.go do to the configuration service.
use aviationwx_org_bridge.Prelude.{
  ◌≡◌, refl, ◌⊎◌, Bool, true, false, Option, none, some, if◌then◌else◌, inl, inr,
}
use aviationwx_org_bridge.Prelude.Int.{ℤ, pos}
use aviationwx_org_bridge.Files.Bytes.{Bytes, codes, bytes_eq}
use aviationwx_org_bridge.Config.Types.{Camera, GlobalSettings, Upload}
use aviationwx_org_bridge.Config.Validator.{is_blank}
use aviationwx_org_bridge.Config.Store.{Json, ReadsBack, Faults, PlainId}
use aviationwx_org_bridge.Config.Service.{Service, Failure}
use aviationwx_org_bridge.Config.Mirror.{Mirrors}
use aviationwx_org_bridge.Config.Calls.{
  Sound, add_camera-Sound, update_camera-Sound, delete_camera-Sound, update_global-Sound,
}
use aviationwx_org_bridge.Console.Types.{
  Decoder, Request, Reply, failed, file_served, to_login, Callbacks, Console, Method, method_get,
  method_post, method_put, method_delete, other_method,
}
use aviationwx_org_bridge.Console.Updates.{
  merge_settings, merge_camera, prepare_camera, segment, after_slash,
}
use aviationwx_org_bridge.Console.Handlers.{
  answered, handle_status, put_settings, handle_config, add_with_upload, handle_add_camera,
  handle_cameras, handle_list_cameras, handle_get_camera, handle_update_camera,
  handle_delete_camera, handle_preview, camera_action, handle_camera, put_time, handle_time,
  handle_test_camera, handle_test_upload, handle_update, handle_logs, handle_healthz, set_timezone,
}
use aviationwx_org_bridge.Console.Serve.{
  Route, status_route, config_route, cameras_route, time_route, test_camera_route,
  test_upload_route, update_route, healthz_route, logs_route, static_route, camera_route, route_of,
  is_login_asset, authorized, with_auth, handle_static, serve_route, serve,
}

module _ (J : Json) where
  -- The files mirror the memory, or the reply is error 500 and the memory is as before.
  abbrev pub Kept : Console J.Text → Reply × Console J.Text → Type 0
  Kept k (reply, k') =
      Mirrors J k'.service
      ⊎ ((reply ≡ failed (pos 500))
          × (k'.service.cameras ≡ k.service.cameras)
          × (k'.service.global ≡ k.service.global)
          × (k'.service.events ≡ k.service.events))

  answered-Kept :
      (page : Service J.Text → Reply) (k : Console J.Text) (r : Option Failure × Service J.Text)
      → Sound J k.service r
      → Kept k (answered J page k r)
  unfolding answered
  answered-Kept page k (none, s) h = inl h
  answered-Kept page k (some e, s) (a, b, c) = inr (refl, a, b, c)

  module _ (B : ReadsBack J) (f : Faults J.Text) (k : Console J.Text)
      (h : Mirrors J k.service) where
    handle_config-Kept : (m : Method) (u : Option GlobalSettings) → Kept k (handle_config J m u f k)
    unfolding handle_config put_settings
    handle_config-Kept method_get u = inl h
    handle_config-Kept method_put none = inl h
    handle_config-Kept method_put (some u) =
        answered-Kept _ k _ (update_global-Sound J B (merge_settings u) f k.service h)
    handle_config-Kept method_post u = inl h
    handle_config-Kept method_delete u = inl h
    handle_config-Kept other_method u = inl h

    add_with_upload-Kept :
        (now : ℤ) (u : Option Upload) (c : Camera) → Kept k (add_with_upload J now u c f k)
    unfolding add_with_upload
    add_with_upload-Kept now none c = inl h
    add_with_upload-Kept now (some u) c =
        answered-Kept _ k _ (add_camera-Sound J (prepare_camera now c u) f k.service h)

    handle_cameras-Kept :
        (cb : Callbacks) (m : Method) (c : Option Camera) → Kept k (handle_cameras J cb m c f k)
    unfolding handle_cameras handle_list_cameras handle_add_camera
    handle_cameras-Kept cb method_get c = inl h
    handle_cameras-Kept cb method_post none = inl h
    handle_cameras-Kept cb method_post (some c) = add_with_upload-Kept cb.now_unix c.upload c
    handle_cameras-Kept cb method_put c = inl h
    handle_cameras-Kept cb method_delete c = inl h
    handle_cameras-Kept cb other_method c = inl h

    handle_update_camera-Kept :
        (id : Bytes) (c : Option Camera) → Kept k (handle_update_camera J id c f k)
    unfolding handle_update_camera
    handle_update_camera-Kept id none = inl h
    handle_update_camera-Kept id (some u) =
        answered-Kept _ k _ (update_camera-Sound J id (merge_camera u) f k.service h)

    handle_delete_camera-Kept : (id : Bytes) → Kept k (handle_delete_camera J id f k)
    unfolding handle_delete_camera
    handle_delete_camera-Kept id = answered-Kept _ k _ (delete_camera-Sound J id f k.service h)

    -- A branch of a handler.
    if-Kept :
        (b : Bool) (p q : Reply × Console J.Text)
        → Kept k p
        → Kept k q
        → Kept k (if b then p else q)
    if-Kept true p q hp hq = hp
    if-Kept false p q hp hq = hq

    handle_camera-Kept :
        (cb : Callbacks) (m : Method) (rest : Bytes) (c : Option Camera)
        → Kept k (handle_camera J cb m rest c f k)
    unfolding handle_camera camera_action handle_get_camera handle_preview
    handle_camera-Kept cb m rest c =
        if-Kept (is_blank (segment rest)) (failed (pos 400), k)
          (camera_action J cb m (segment rest) (segment (after_slash rest)) c f k) (inl h)
          (action m)
      where
        action :
            (m : Method)
            → Kept k (camera_action J cb m (segment rest) (segment (after_slash rest)) c f k)
        action method_get =
            if-Kept (bytes_eq (segment (after_slash rest)) (codes "preview"))
              (handle_preview J cb (segment rest) k)
              (if is_blank (segment (after_slash rest))
                then handle_get_camera J (segment rest) k
                else (failed (pos 405), k))
              (inl h)
              (if-Kept (is_blank (segment (after_slash rest)))
                (handle_get_camera J (segment rest) k) (failed (pos 405), k) (inl h) (inl h))
        action method_put =
            if-Kept (is_blank (segment (after_slash rest))) _ _
              (handle_update_camera-Kept (segment rest) c) (inl h)
        action method_delete =
            if-Kept (is_blank (segment (after_slash rest))) _ _
              (handle_delete_camera-Kept (segment rest)) (inl h)
        action method_post = inl h
        action other_method = inl h

    handle_time-Kept : (m : Method) (zone : Option Bytes) → Kept k (handle_time J m zone f k)
    unfolding handle_time put_time
    handle_time-Kept method_get tz = inl h
    handle_time-Kept method_put none = inl h
    handle_time-Kept method_put (some z) =
        answered-Kept _ k _ (update_global-Sound J B (set_timezone J z) f k.service h)
    handle_time-Kept method_post tz = inl h
    handle_time-Kept method_delete tz = inl h
    handle_time-Kept other_method tz = inl h

    handle_update-Kept : (cb : Callbacks) (m : Method) → Kept k (handle_update J cb m k)
    unfolding handle_update
    handle_update-Kept cb method_post = if-Kept cb.trigger_fails _ _ (inl h) (inl h)
    handle_update-Kept cb method_get = inl h
    handle_update-Kept cb method_put = inl h
    handle_update-Kept cb method_delete = inl h
    handle_update-Kept cb other_method = inl h

    -- The handlers that only read.
    handle_status-Kept : (cb : Callbacks) (m : Method) → Kept k (handle_status J cb m k)
    unfolding handle_status
    handle_status-Kept cb method_get = inl h
    handle_status-Kept cb method_post = inl h
    handle_status-Kept cb method_put = inl h
    handle_status-Kept cb method_delete = inl h
    handle_status-Kept cb other_method = inl h

    handle_test_camera-Kept :
        (cb : Callbacks) (m : Method) (c : Option Camera) → Kept k (handle_test_camera J cb m c k)
    unfolding handle_test_camera
    handle_test_camera-Kept cb method_post none = inl h
    handle_test_camera-Kept cb method_post (some c) = inl h
    handle_test_camera-Kept cb method_get c = inl h
    handle_test_camera-Kept cb method_put c = inl h
    handle_test_camera-Kept cb method_delete c = inl h
    handle_test_camera-Kept cb other_method c = inl h

    handle_test_upload-Kept :
        (cb : Callbacks) (m : Method) (u : Option Upload) → Kept k (handle_test_upload J cb m u k)
    unfolding handle_test_upload
    handle_test_upload-Kept cb method_post none = inl h
    handle_test_upload-Kept cb method_post (some u) = inl h
    handle_test_upload-Kept cb method_get u = inl h
    handle_test_upload-Kept cb method_put u = inl h
    handle_test_upload-Kept cb method_delete u = inl h
    handle_test_upload-Kept cb other_method u = inl h

    handle_logs-Kept : (cb : Callbacks) (n : Option ℤ) → Kept k (handle_logs J cb n k)
    unfolding handle_logs
    handle_logs-Kept cb n = inl h

    module _ (D : Decoder) (cb : Callbacks) (r : Request D.Body) where
      with_auth-Kept :
          (answer : Reply × Console J.Text) → Kept k answer → Kept k (with_auth J D r k answer)
      with_auth-Kept answer p = if-Kept (authorized J D r.credentials k.service) answer _ p (inl h)

      serve_route-Kept : (route : Route) → Kept k (serve_route J D cb route r f k)
      unfolding serve_route handle_static handle_healthz
      serve_route-Kept status_route = with_auth-Kept _ (handle_status-Kept cb r.method)
      serve_route-Kept config_route =
          with_auth-Kept _ (handle_config-Kept r.method (D.body_settings r.body))
      serve_route-Kept cameras_route =
          with_auth-Kept _ (handle_cameras-Kept cb r.method (D.body_camera r.body))
      serve_route-Kept (camera_route rest) =
          with_auth-Kept _ (handle_camera-Kept cb r.method rest (D.body_camera r.body))
      serve_route-Kept time_route =
          with_auth-Kept _ (handle_time-Kept r.method (D.body_timezone r.body))
      serve_route-Kept test_camera_route =
          with_auth-Kept _ (handle_test_camera-Kept cb r.method (D.body_camera r.body))
      serve_route-Kept test_upload_route =
          with_auth-Kept _ (handle_test_upload-Kept cb r.method (D.body_upload r.body))
      serve_route-Kept update_route = with_auth-Kept _ (handle_update-Kept cb r.method)
      serve_route-Kept logs_route = with_auth-Kept _ (handle_logs-Kept cb r.tail)
      serve_route-Kept healthz_route = inl h
      serve_route-Kept static_route =
          if-Kept (is_login_asset r.path) (file_served, k)
            (if authorized J D r.credentials k.service then (file_served, k) else (to_login, k))
            (inl h)
            (if-Kept (authorized J D r.credentials k.service) (file_served, k) (to_login, k) (inl h)
              (inl h))

  -- While the files of the configuration service mirror its memory, every request leaves them so, or is
  -- answered by error 500 and leaves the cameras and the settings in memory as they were and sends no event;
  -- for requests whose body is not a camera with a slash in its id.
  pub serve-Kept :
      (D : Decoder)
      → ReadsBack J
      → (cb : Callbacks) (r : Request D.Body) (f : Faults J.Text) (k : Console J.Text)
      → ((c : Camera) → D.body_camera r.body ≡ some c → PlainId c.id)
      → Mirrors J k.service
      → Kept k (serve J D cb r f k)
  unfolding serve
  serve-Kept D B cb r f k plain h = serve_route-Kept B f k h D cb r (route_of r.path)
