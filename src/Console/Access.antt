-- ===== src/Console/Access.antt =====
-- What internal/web/server.go answers without the password.
use aviationwx_org_bridge.Prelude.{◌≡◌, refl, ap, false, if◌then◌else◌, Bool-cases, inl, inr}
use aviationwx_org_bridge.Prelude.Int.{pos}
use aviationwx_org_bridge.Files.Bytes.{Bytes}
use aviationwx_org_bridge.Config.Store.{Json, Faults}
use aviationwx_org_bridge.Console.Status.{build_health_status}
use aviationwx_org_bridge.Console.Types.{
  Decoder, Request, Reply, failed, to_login, file_served, health_page, Callbacks, Console,
}
use aviationwx_org_bridge.Console.Handlers.{status_code, handle_healthz}
use aviationwx_org_bridge.Console.Serve.{
  Route, status_route, config_route, cameras_route, time_route, test_camera_route,
  test_upload_route, update_route, healthz_route, logs_route, static_route, camera_route, route_of,
  is_login_asset, authorized, with_auth, handle_static, serve_route, serve,
}

module _ (J : Json) where
  -- The health of the daemon, the files of the login page, the way to it, and nothing else.
  abbrev pub open_reply : Callbacks → Bytes → Route → Reply
  open_reply cb path healthz_route =
      health_page (status_code J (build_health_status cb.daemon_status))
        (build_health_status cb.daemon_status)
  open_reply cb path static_route = if is_login_asset path then file_served else to_login
  open_reply cb path _ = failed (pos 401)

  module _ (D : Decoder) where
    withheld :
        (r : Request D.Body) (k : Console J.Text) (answer : Reply × Console J.Text)
        → authorized J D r.credentials k.service ≡ false
        → with_auth J D r k answer ≡ (failed (pos 401), k)
    withheld r k answer h = ap (λ b. if b then answer else (failed (pos 401), k)) h

    static_withheld :
        (cb : Callbacks) (r : Request D.Body) (k : Console J.Text)
        → authorized J D r.credentials k.service ≡ false
        → handle_static J D r k ≡ (open_reply cb r.path static_route, k)
    unfolding handle_static
    static_withheld cb r k h = elim (Bool-cases (is_login_asset r.path)) [
      | inl asset ↦ rw asset refl
      | inr other ↦ rw (other, h) refl
    ]

    serve_route_unauthorized :
        (cb : Callbacks) (route : Route) (r : Request D.Body) (f : Faults J.Text)
        (k : Console J.Text)
        → authorized J D r.credentials k.service ≡ false
        → serve_route J D cb route r f k ≡ (open_reply cb r.path route, k)
    unfolding serve_route handle_healthz
    serve_route_unauthorized cb status_route r f k h = withheld r k _ h
    serve_route_unauthorized cb config_route r f k h = withheld r k _ h
    serve_route_unauthorized cb cameras_route r f k h = withheld r k _ h
    serve_route_unauthorized cb (camera_route rest) r f k h = withheld r k _ h
    serve_route_unauthorized cb time_route r f k h = withheld r k _ h
    serve_route_unauthorized cb test_camera_route r f k h = withheld r k _ h
    serve_route_unauthorized cb test_upload_route r f k h = withheld r k _ h
    serve_route_unauthorized cb update_route r f k h = withheld r k _ h
    serve_route_unauthorized cb logs_route r f k h = withheld r k _ h
    serve_route_unauthorized cb healthz_route r f k h = refl
    serve_route_unauthorized cb static_route r f k h = static_withheld cb r k h

    -- A request without the password changes nothing, neither the configuration nor the trigger of an
    -- update, and gets the health check, the files of the login page, a redirect to it, or error 401.
    pub serve_unauthorized :
        (cb : Callbacks) (r : Request D.Body) (f : Faults J.Text) (k : Console J.Text)
        → authorized J D r.credentials k.service ≡ false
        → serve J D cb r f k ≡ (open_reply cb r.path (route_of r.path), k)
    unfolding serve
    serve_unauthorized cb r f k h = serve_route_unauthorized cb (route_of r.path) r f k h
