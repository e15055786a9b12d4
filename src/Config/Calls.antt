-- ===== src/Config/Calls.antt =====
-- Every call of the configuration service keeps its files as they should be, or fails and changes
-- nothing in memory: internal/config/service.go.
use aviationwx_org_bridge.Prelude.{◌≡◌, refl, Bool, true, false, List, Option, none, some}
use aviationwx_org_bridge.Files.Bytes.{Bytes}
use aviationwx_org_bridge.Files.Maps.{lookup}
use aviationwx_org_bridge.Config.Types.{
  Camera, GlobalSettings, ConfigEvent, camera_added, camera_updated,
}
use aviationwx_org_bridge.Config.Store.{
  Json, ReadsBack, Node, Faults, Written, complete, untouched, damaged, file_of, PlainId, write,
  write_settings,
}
use aviationwx_org_bridge.Config.Mirror.{Filed, Mirrors, back_up-Filed, put-Filed, erase-Filed}
use aviationwx_org_bridge.Config.Service.{
  Service, Failure, already_exists, not_found, refused, save_camera_file, saved, add_camera,
  update_with, update_camera, delete_known, delete_camera, set_global, update_global,
}

module _ (J : Json) where
  open J use {Text, of_camera, of_settings}

  -- What a call leaves: if it succeeds the files mirror the memory; if it fails, the memory is as
  -- before and no event was sent.
  abbrev pub Sound : Service Text → Option Failure × Service Text → Type 0
  Sound s (none, s') = Mirrors J s'
  Sound s (some e, s') = (s'.cameras ≡ s.cameras) × (s'.global ≡ s.global) × (s'.events ≡ s.events)

  saved-Sound :
      (c : Camera) (e : ConfigEvent) (f : Faults Text) (s : Service Text)
      → Mirrors J s
      → Sound s (saved J c e s (save_camera_file J c f s.disk.camera_files))
  unfolding saved save_camera_file write
  saved-Sound c e f s h =
      go f.writing (back_up-Filed J s.cameras c.id f.backup s.disk.camera_files h.filed)
    where
      go :
          (w : Written Text) {files : List (Bytes × Node Text)}
          → Filed J s.cameras files
          → Sound s (saved J c e s (write w (file_of c.id) (of_camera c) files))
      go complete filed = record { settings = h.settings; filed = put-Filed J s.cameras c _ filed }
      go untouched filed = (refl, refl, refl)
      go (damaged v) filed = (refl, refl, refl)

  pub add_camera-Sound :
      (c : Camera) (f : Faults Text) (s : Service Text) → Mirrors J s → Sound s (add_camera J c f s)
  unfolding add_camera
  add_camera-Sound c f s h =
      elim (lookup c.id s.cameras)
        as (λ o. Sound s (elim o [
          | some old ↦ (some already_exists, s)
          | none ↦ saved J c (camera_added c.id) s (save_camera_file J c f s.disk.camera_files)
        ])) [ none ↦ saved-Sound c (camera_added c.id) f s h | some old ↦ (refl, refl, refl) ]

  update_with-Sound :
      (id : Bytes) (o : Option Camera) (f : Faults Text) (s : Service Text)
      → Mirrors J s
      → Sound s (update_with J id o f s)
  unfolding update_with
  update_with-Sound id none f s h = (refl, refl, refl)
  update_with-Sound id (some u) f s h = saved-Sound (record u { id = id }) (camera_updated id) f s h

  pub update_camera-Sound :
      (id : Bytes) (change : Camera → Option Camera) (f : Faults Text) (s : Service Text)
      → Mirrors J s
      → Sound s (update_camera J id change f s)
  unfolding update_camera
  update_camera-Sound id change f s h =
      elim (lookup id s.cameras)
        as (λ o.
          Sound s
            (elim o [ none ↦ (some not_found, s) | some c ↦ update_with J id (change c) f s ])) [
              | none ↦ (refl, refl, refl)
              | some c ↦ update_with-Sound id (change c) f s h
            ]

  delete_known-Sound :
      (id : Bytes) (fails : Bool) (s : Service Text)
      → Mirrors J s
      → Sound s (delete_known J id fails s)
  unfolding delete_known
  delete_known-Sound id true s h = (refl, refl, refl)
  delete_known-Sound id false s h = record {
    settings = h.settings;
    filed = erase-Filed J s.cameras id s.disk.camera_files h.filed;
  }

  pub delete_camera-Sound :
      (id : Bytes) (f : Faults Text) (s : Service Text)
      → Mirrors J s
      → Sound s (delete_camera J id f s)
  unfolding delete_camera
  delete_camera-Sound id f s h =
      elim (lookup id s.cameras)
        as (λ o.
          Sound s
            (elim o [ none ↦ (some not_found, s) | some c ↦ delete_known J id f.remove_fails s ])) [
              | none ↦ (refl, refl, refl)
              | some c ↦ delete_known-Sound id f.remove_fails s h
            ]

  module _ (B : ReadsBack J) where
    set_global-Sound :
        (g : GlobalSettings) (w : Written Text) (s : Service Text)
        → Mirrors J s
        → Sound s (set_global J g s (write_settings w (of_settings g) s.disk.settings_file))
    unfolding set_global
    set_global-Sound g complete s h = record { settings = B.settings_back g; filed = h.filed }
    set_global-Sound g untouched s h = (refl, refl, refl)
    set_global-Sound g (damaged v) s h = (refl, refl, refl)

    pub update_global-Sound :
        (change : GlobalSettings → Option GlobalSettings) (f : Faults Text) (s : Service Text)
        → Mirrors J s
        → Sound s (update_global J change f s)
    unfolding update_global
    update_global-Sound change f s h = go (change s.global)
      where
        go :
            (o : Option GlobalSettings)
            → Sound s (elim o [
              | none ↦ (some refused, s)
              | some g ↦
                  set_global J g s (write_settings f.writing (of_settings g) s.disk.settings_file)
            ])
        go none = (refl, refl, refl)
        go (some g) = set_global-Sound g f.writing s h

  -- A call that changes the configuration.
  pub data Call : Type 0 where
    adds : Camera → Call
    updates : Bytes → (Camera → Option Camera) → Call
    deletes : Bytes → Call
    sets : (GlobalSettings → Option GlobalSettings) → Call

  abbrev pub step : Call → Faults Text → Service Text → Option Failure × Service Text
  step (adds c) f s = add_camera J c f s
  step (updates id change) f s = update_camera J id change f s
  step (deletes id) f s = delete_camera J id f s
  step (sets change) f s = update_global J change f s

  -- The id of the camera in a call has no slash.
  abbrev pub PlainCall : Call → Type 0
  PlainCall (adds c) = PlainId c.id
  PlainCall (updates id change) = PlainId id
  PlainCall (deletes id) = PlainId id
  PlainCall (sets change) = Unit

  -- AddCamera, UpdateCamera and DeleteCamera of an id without a slash and UpdateGlobal keep the files of a
  -- service the mirror of its memory if they succeed; if they fail, cameras, settings and events are as
  -- before.
  pub step-Sound :
      ReadsBack J
      → (call : Call) (f : Faults Text) (s : Service Text) → PlainCall call
      → Mirrors J s
      → Sound s (step call f s)
  step-Sound B (adds c) f s plain h = add_camera-Sound c f s h
  step-Sound B (updates id change) f s plain h = update_camera-Sound id change f s h
  step-Sound B (deletes id) f s plain h = delete_camera-Sound id f s h
  step-Sound B (sets change) f s plain h = update_global-Sound B change f s h
