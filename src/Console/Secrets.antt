-- ===== src/Console/Secrets.antt =====
-- What an update of a camera in internal/web/server.go keeps: updateCamera over UpdateCamera of the
-- configuration service.
use aviationwx_org_bridge.Prelude.{◌≡◌, refl, ap, ◌∙◌, Option, none, some, if◌then◌else◌}
use aviationwx_org_bridge.Files.Bytes.{Bytes, bytes_eq_refl}
use aviationwx_org_bridge.Files.Maps.{lookup}
use aviationwx_org_bridge.Config.Types.{Auth, Onvif, Rtsp, Upload, Camera}
use aviationwx_org_bridge.Config.Validator.{is_blank}
use aviationwx_org_bridge.Config.Store.{Json, Faults, complete}
use aviationwx_org_bridge.Config.Service.{Service, Failure, get_camera, update_camera}
use aviationwx_org_bridge.Config.Calls.{updates}
use aviationwx_org_bridge.Config.Refines.{view, answer_of, update_camera-Shows}
use aviationwx_org_bridge.Console.Types.{Reply, camera_page, aborted, Console}
use aviationwx_org_bridge.Console.Updates.{
  keep_upload, keep_auth, keep_rtsp, keep_onvif, merge_camera, camera_to_map,
}
use aviationwx_org_bridge.Console.Handlers.{page_or, answered, handle_update_camera}

-- The camera after an update of a camera with an id: each kind of settings as it was sent, with the stored
-- password in place of an empty one, and gone if it was not sent; the rest as it was sent.
pub record Merged (id : Bytes) (u c d : Camera) : Type 0 where
  pub same_id : d.id ≡ id
  pub same_path : d.remote_path ≡ c.remote_path
  pub same_old_interval : d.interval_seconds ≡ c.interval_seconds
  pub sent :
      (d.name ≡ u.name)
      × (d.kind ≡ u.kind)
      × (d.enabled ≡ u.enabled)
      × (d.snapshot_url ≡ u.snapshot_url)
      × (d.capture_interval_seconds ≡ u.capture_interval_seconds)
      × (d.image ≡ u.image)
      × (d.queue ≡ u.queue)
  pub upload_absent : u.upload ≡ none → d.upload ≡ none
  pub upload_new : (x : Upload) → u.upload ≡ some x → c.upload ≡ none → d.upload ≡ some x
  pub upload_kept :
      (x y : Upload)
      → u.upload ≡ some x
      → c.upload ≡ some y
      → d.upload
        ≡ some (record x { password = if is_blank x.password then y.password else x.password })
  pub auth_absent : u.auth ≡ none → d.auth ≡ none
  pub auth_new : (x : Auth) → u.auth ≡ some x → c.auth ≡ none → d.auth ≡ some x
  pub auth_kept :
      (x y : Auth)
      → u.auth ≡ some x
      → c.auth ≡ some y
      → d.auth
        ≡ some (record x { password = if is_blank x.password then y.password else x.password })
  pub rtsp_absent : u.rtsp ≡ none → d.rtsp ≡ none
  pub rtsp_new : (x : Rtsp) → u.rtsp ≡ some x → c.rtsp ≡ none → d.rtsp ≡ some x
  pub rtsp_kept :
      (x y : Rtsp)
      → u.rtsp ≡ some x
      → c.rtsp ≡ some y
      → d.rtsp
        ≡ some (record x { password = if is_blank x.password then y.password else x.password })
  pub onvif_absent : u.onvif ≡ none → d.onvif ≡ none
  pub onvif_new : (x : Onvif) → u.onvif ≡ some x → c.onvif ≡ none → d.onvif ≡ some x
  pub onvif_kept :
      (x y : Onvif)
      → u.onvif ≡ some x
      → c.onvif ≡ some y
      → d.onvif
        ≡ some (record x { password = if is_blank x.password then y.password else x.password })

-- merge_camera does not fail.
abbrev merged : Bytes → Camera → Camera → Camera
merged id u c = record c {
  id = id;
  name = u.name;
  kind = u.kind;
  enabled = u.enabled;
  snapshot_url = u.snapshot_url;
  capture_interval_seconds = u.capture_interval_seconds;
  auth = keep_auth u.auth c.auth;
  onvif = keep_onvif u.onvif c.onvif;
  rtsp = keep_rtsp u.rtsp c.rtsp;
  image = u.image;
  upload = keep_upload u.upload c.upload;
  queue = u.queue;
}

merged-Merged : (id : Bytes) (u c : Camera) → Merged id u c (merged id u c)
unfolding keep_upload keep_auth keep_rtsp keep_onvif
merged-Merged id u c = record {
  same_id = refl;
  same_path = refl;
  same_old_interval = refl;
  sent = (refl, refl, refl, refl, refl, refl, refl);
  upload_absent = λ h. rw h refl;
  upload_new = λ x h i. rw (h, i) refl;
  upload_kept = λ x y h i. rw (h, i) refl;
  auth_absent = λ h. rw h refl;
  auth_new = λ x h i. rw (h, i) refl;
  auth_kept = λ x y h i. rw (h, i) refl;
  rtsp_absent = λ h. rw h refl;
  rtsp_new = λ x h i. rw (h, i) refl;
  rtsp_kept = λ x y h i. rw (h, i) refl;
  onvif_absent = λ h. rw h refl;
  onvif_new = λ x h i. rw (h, i) refl;
  onvif_kept = λ x y h i. rw (h, i) refl;
}

module _ (J : Json) where
  answered_ok :
      (page : Service J.Text → Reply) (k : Console J.Text) (r : Option Failure × Service J.Text)
      → r.0 ≡ none
      → answered J page k r ≡ (page r.1, record k { service = r.1 })
  unfolding answered
  answered_ok page k (none, s) h = refl
  answered_ok page k (some e, s) h = absurd (cc (h))

  -- What the service answers to the update.
  answer_of_update :
      (id : Bytes) (u c : Camera) (s : Service J.Text)
      → lookup id s.cameras ≡ some c
      → ((answer_of J (updates id (merge_camera u)) (view J s)).0 ≡ none)
        × ((answer_of J (updates id (merge_camera u)) (view J s)).1.camera id
            ≡ some (merged id u c))
  unfolding merge_camera
  answer_of_update id u c s known = rw known (refl, rw (bytes_eq_refl id) refl)

  -- An update of a camera that is there, while writes succeed, is answered with the camera that is then
  -- stored: its id, remote path and old interval are kept, and so is each stored password that the update leaves empty in
  -- settings that it sends; the settings of the upload, the camera's login, RTSP or ONVIF that it leaves out
  -- are gone, and all else is what it sent.
  pub handle_update_camera-Merged :
      (id : Bytes) (u c : Camera) (f : Faults J.Text) (k : Console J.Text)
      → f.writing ≡ complete
      → lookup id k.service.cameras ≡ some c
      → (d : Camera) × (k' : Console J.Text) × (handle_update_camera J id (some u) f k
          ≡ (camera_page (camera_to_map k'.service.global.timezone d), k'))
        × (lookup id k'.service.cameras ≡ some d)
        × Merged id u c d
  unfolding handle_update_camera
  handle_update_camera-Merged id u c f k writes known =
      let r = update_camera J id (merge_camera u) f k.service in
      let (answers, cameras, settings) =
        update_camera-Shows J f writes id (merge_camera u) k.service in
      let (accepted, there) = answer_of_update id u c k.service known in
      (
        merged id u c,
        record k { service = r.1 },
        answered_ok (λ s. page_or J aborted s.global.timezone (get_camera J id s)) k r
              (answers ∙ accepted)
            ∙ ap (λ o. (page_or J aborted r.1.global.timezone o, record k { service = r.1 }))
                (cameras id ∙ there),
        cameras id ∙ there,
        merged-Merged id u c,
      )
