-- ===== src/Console/Handlers.antt =====
-- The handlers of internal/web/server.go and its routes.
use aviationwx_org_bridge.Prelude.{List, true, [], ◌∷◌, Option, none, some, if◌then◌else◌, map}
use aviationwx_org_bridge.Prelude.Int.{ℤ, pos, ltb_ℤ}
use aviationwx_org_bridge.Files.Bytes.{Bytes, codes, bytes_eq}
use aviationwx_org_bridge.Config.Types.{Upload, Camera, GlobalSettings}
use aviationwx_org_bridge.Config.Validator.{is_blank}
use aviationwx_org_bridge.Config.Store.{Json, Faults}
use aviationwx_org_bridge.Config.Service.{
  Service, Failure, list_cameras, get_camera, add_camera, update_camera, delete_camera,
  update_global,
}
use aviationwx_org_bridge.Console.Status.{
  HealthReport, unhealthy, healthy, degraded, build_health_status,
}
use aviationwx_org_bridge.Console.Types.{
  Method, method_get, method_post, method_put, method_delete, Reply, failed, aborted, ok,
  no_content, status_page, settings_page, camera_list, camera_page, camera_created, time_page,
  image, logs_page, health_page, Callbacks, Console,
}
use aviationwx_org_bridge.Logs.Buffer.{LogEntry, get_last}
use aviationwx_org_bridge.Console.Updates.{
  merge_settings, merge_camera, camera_to_map, prepare_camera, segment, after_slash,
}

module _ (J : Json) where
  open J use {Text}

  -- The answer to a call of the service, with a reply from what it left.
  unfoldable pub answered :
      (Service Text → Reply) → Console Text → Option Failure × Service Text → Reply × Console Text
  answered page k (none, s) = (page s, record k { service = s })
  answered page k (some e, s) = (failed (pos 500), record k { service = s })

  unfoldable pub handle_status : Callbacks → Method → Console Text → Reply × Console Text
  handle_status cb method_get k = (status_page cb.daemon_status, k)
  handle_status cb _ k = (failed (pos 405), k)

  unfoldable pub put_settings :
      Option GlobalSettings → Faults Text → Console Text → Reply × Console Text
  unfolding answered merge_settings
  put_settings none f k = (failed (pos 400), k)
  put_settings (some u) f k = answered (λ s. ok) k (update_global J (merge_settings u) f k.service)

  unfoldable pub handle_config :
      Method → Option GlobalSettings → Faults Text → Console Text → Reply × Console Text
  unfolding put_settings
  handle_config method_get u f k = (settings_page k.service.global, k)
  handle_config method_put u f k = put_settings u f k
  handle_config _ u f k = (failed (pos 405), k)

  unfoldable pub handle_list_cameras : Console Text → Reply × Console Text
  handle_list_cameras k =
      (camera_list (map (camera_to_map k.service.global.timezone) (list_cameras J k.service)), k)

  unfoldable pub add_with_upload :
      ℤ → Option Upload → Camera → Faults Text → Console Text → Reply × Console Text
  unfolding answered prepare_camera
  add_with_upload now none c f k = (failed (pos 400), k)
  add_with_upload now (some u) c f k =
      answered (λ s. camera_created (camera_to_map s.global.timezone (prepare_camera now c u))) k
        (add_camera J (prepare_camera now c u) f k.service)

  unfoldable pub handle_add_camera :
      ℤ → Option Camera → Faults Text → Console Text → Reply × Console Text
  unfolding add_with_upload
  handle_add_camera now none f k = (failed (pos 400), k)
  handle_add_camera now (some c) f k = add_with_upload now c.upload c f k

  unfoldable pub handle_cameras :
      Callbacks → Method → Option Camera → Faults Text → Console Text → Reply × Console Text
  unfolding handle_list_cameras handle_add_camera
  handle_cameras cb method_get c f k = handle_list_cameras k
  handle_cameras cb method_post c f k = handle_add_camera cb.now_unix c f k
  handle_cameras cb _ c f k = (failed (pos 405), k)

  -- The page of a camera, if it is there.
  abbrev pub page_or : Reply → Bytes → Option Camera → Reply
  page_or missing zone none = missing
  page_or missing zone (some c) = camera_page (camera_to_map zone c)

  unfoldable pub handle_get_camera : Bytes → Console Text → Reply × Console Text
  handle_get_camera id k =
      (page_or (failed (pos 404)) k.service.global.timezone (get_camera J id k.service), k)

  unfoldable pub handle_update_camera :
      Bytes → Option Camera → Faults Text → Console Text → Reply × Console Text
  unfolding answered merge_camera
  handle_update_camera id none f k = (failed (pos 400), k)
  handle_update_camera id (some u) f k =
      answered (λ s. page_or aborted s.global.timezone (get_camera J id s)) k
        (update_camera J id (merge_camera u) f k.service)

  unfoldable pub handle_delete_camera : Bytes → Faults Text → Console Text → Reply × Console Text
  unfolding answered
  handle_delete_camera id f k = answered (λ s. no_content) k (delete_camera J id f k.service)

  abbrev pub preview : Option Bytes → Reply
  preview none = no_content
  preview (some []) = no_content
  preview (some (c ∷ cs)) = image (c ∷ cs)

  unfoldable pub handle_preview : Callbacks → Bytes → Console Text → Reply × Console Text
  handle_preview cb id k = (
    elim (get_camera J id k.service) [
      | none ↦ failed (pos 404)
      | some c ↦ preview (cb.camera_image id)
    ],
    k,
  )

  unfoldable pub camera_action :
      Callbacks
      → Method
      → Bytes
      → Bytes
      → Option Camera
      → Faults Text
      → Console Text
      → Reply × Console Text
  unfolding handle_get_camera handle_update_camera handle_delete_camera handle_preview
  camera_action cb method_get id action c f k =
      if bytes_eq action (codes "preview")
      then handle_preview cb id k
      else if is_blank action
      then handle_get_camera id k
      else (failed (pos 405), k)
  camera_action cb method_put id action c f k =
      if is_blank action then handle_update_camera id c f k else (failed (pos 405), k)
  camera_action cb method_delete id action c f k =
      if is_blank action then handle_delete_camera id f k else (failed (pos 405), k)
  camera_action cb _ id action c f k = (failed (pos 405), k)

  -- With the path after /api/cameras/.
  unfoldable pub handle_camera :
      Callbacks → Method → Bytes → Option Camera → Faults Text → Console Text → Reply × Console Text
  unfolding camera_action segment after_slash
  handle_camera cb m rest c f k =
      if is_blank (segment rest)
      then (failed (pos 400), k)
      else camera_action cb m (segment rest) (segment (after_slash rest)) c f k

  abbrev pub set_timezone : Bytes → GlobalSettings → Option GlobalSettings
  set_timezone zone g = some (record g { timezone = zone })

  unfoldable pub put_time : Option Bytes → Faults Text → Console Text → Reply × Console Text
  unfolding answered
  put_time none f k = (failed (pos 400), k)
  put_time (some zone) f k = answered (λ s. ok) k (update_global J (set_timezone zone) f k.service)

  unfoldable pub handle_time :
      Method → Option Bytes → Faults Text → Console Text → Reply × Console Text
  unfolding put_time
  handle_time method_get tz f k = (time_page k.service.global.timezone, k)
  handle_time method_put tz f k = put_time tz f k
  handle_time _ tz f k = (failed (pos 405), k)

  abbrev pub image_or : Option Bytes → Reply
  image_or none = failed (pos 500)
  image_or (some b) = image b

  unfoldable pub handle_test_camera :
      Callbacks → Method → Option Camera → Console Text → Reply × Console Text
  handle_test_camera cb method_post none k = (failed (pos 400), k)
  handle_test_camera cb method_post (some c) k = (image_or (cb.test_camera c), k)
  handle_test_camera cb _ c k = (failed (pos 405), k)

  unfoldable pub handle_test_upload :
      Callbacks → Method → Option Upload → Console Text → Reply × Console Text
  handle_test_upload cb method_post none k = (failed (pos 400), k)
  handle_test_upload cb method_post (some u) k =
      (if cb.test_upload u then ok else failed (pos 500), k)
  handle_test_upload cb _ u k = (failed (pos 405), k)

  unfoldable pub handle_update : Callbacks → Method → Console Text → Reply × Console Text
  handle_update cb method_post k =
      if cb.trigger_fails then (failed (pos 500), k) else (ok, record k { triggered = true })
  handle_update cb _ k = (failed (pos 405), k)

  -- The number of lines that are asked for, at most 1000.
  abbrev pub lines_asked : Option ℤ → ℤ
  lines_asked none = pos 100
  lines_asked (some n) = if ltb_ℤ (pos 1000) n then pos 1000 else n

  abbrev pub logs_or : Option (List LogEntry) → Reply
  logs_or none = aborted
  logs_or (some es) = logs_page es

  -- GetRecentLogs.
  unfoldable pub handle_logs : Callbacks → Option ℤ → Console Text → Reply × Console Text
  unfolding get_last
  handle_logs cb tail k = (logs_or (get_last (lines_asked tail) cb.log), k)

  abbrev pub status_code : HealthReport → ℤ
  status_code r = elim r.status [ unhealthy ↦ pos 503 | healthy ↦ pos 200 | degraded ↦ pos 200 ]

  unfoldable pub handle_healthz : Callbacks → Console Text → Reply × Console Text
  handle_healthz cb k =
      let r = build_health_status cb.daemon_status in (health_page (status_code r) r, k)
