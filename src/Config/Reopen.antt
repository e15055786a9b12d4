-- ===== src/Config/Reopen.antt =====
-- Starting the configuration service again on the files of one that ran: NewService and reload of
-- internal/config/service.go.
use aviationwx_org_bridge.Prelude.{
  ◌≡◌, refl, sym, ap, ◌∙◌, inl, inr, true, false, [], Option, none, some, Option-cases,
}
use aviationwx_org_bridge.Files.Bytes.{Bytes}
use aviationwx_org_bridge.Files.Maps.{lookup}
use aviationwx_org_bridge.Config.Types.{GlobalSettings, Sntp}
use aviationwx_org_bridge.Config.Store.{Json, ReadsBack, Disk, Faults}
use aviationwx_org_bridge.Config.Mirror.{Mirrors}
use aviationwx_org_bridge.Config.Service.{
  Service, load_cameras, read_settings, reload, opened, open_loaded, open_sntp, new_service,
}
use aviationwx_org_bridge.Config.Loading.{normalized, load_cameras-LoadsAll}

module _ (J : Json) where
  open J use {Text, of_camera, to_camera}

  reload-loaded :
      (f : Faults Text) (d : Disk Text) (g : GlobalSettings)
      → f.directory_unreadable ≡ false
      → read_settings J d.settings_file ≡ some g
      → (load_cameras J d.camera_files []).0 ≡ true
      → reload J f d ≡ (some g, (load_cameras J d.camera_files []).1)
  unfolding reload
  reload-loaded f d g readable settings came_to_end =
      rw (reload, settings) (rw (readable, came_to_end) refl)

  new_service-loaded :
      (f : Faults Text) (d : Disk Text) (g : GlobalSettings) (x : Sntp)
      → f.directory_unreadable ≡ false
      → read_settings J d.settings_file ≡ some g
      → (load_cameras J d.camera_files []).0 ≡ true
      → g.sntp ≡ some x
      → new_service J f d
        ≡ opened (record {
          global = g;
          cameras = (load_cameras J d.camera_files []).1;
          disk = d;
          events = [];
        })
  unfolding new_service open_loaded
  new_service-loaded f d g x readable settings came_to_end sntp =
      ap (λ r. open_loaded J r f d) (reload-loaded f d g readable settings came_to_end)
      ∙ go g.sntp sntp
    where
      go :
          (o : Option Sntp)
          → o ≡ some x
          → open_sntp J o g (load_cameras J d.camera_files []).1 f d
            ≡ opened (record {
              global = g;
              cameras = (load_cameras J d.camera_files []).1;
              disk = d;
              events = [];
            })
      go none e = absurd (cc (e))
      go (some y) e = refl

  -- A service that is started on the files of one that ran, with a readable directory, has its
  -- settings and each of its cameras, with normalized upload settings, and no others.
  pub new_service-Mirrors :
      ReadsBack J
      → (f : Faults Text) (s : Service Text) (x : Sntp) → f.directory_unreadable ≡ false
      → s.global.sntp ≡ some x
      → Mirrors J s
      → (s' : Service Text) × (new_service J f s.disk ≡ opened s')
        × (s'.global ≡ s.global)
        × (s'.disk ≡ s.disk)
        × ((id : Bytes) → lookup id s'.cameras ≡ normalized (lookup id s.cameras))
  unfolding lookup
  new_service-Mirrors B f s x readable sntp h =
      let all =
        load_cameras-LoadsAll J B s.cameras h.filed.named s.disk.camera_files [] h.filed.fits
          (λ id. inl refl) in
      (
        record {
          global = s.global;
          cameras = (load_cameras J s.disk.camera_files []).1;
          disk = s.disk;
          events = [];
        },
        new_service-loaded f s.disk s.global x readable h.settings all.came_to_end sntp,
        refl,
        refl,
        λ id. elim (Option-cases (lookup id s.cameras)) [
          | inr (c, known) ↦ all.found id c known (h.filed.stored id c known)
          | inl absent ↦ elim (all.from id) [
            | inr right ↦ right
            | inl none_there ↦ none_there ∙ sym (ap normalized absent)
          ]
        ],
      )
