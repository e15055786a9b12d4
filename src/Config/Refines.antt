-- ===== src/Config/Refines.antt =====
-- The configuration service as a map of cameras and the settings, with calls that are answered by what
-- these hold: internal/config/service.go.
use aviationwx_org_bridge.Prelude.{◌≡◌, refl, false, Option, none, some, if◌then◌else◌}
use aviationwx_org_bridge.Files.Bytes.{Bytes, bytes_eq}
use aviationwx_org_bridge.Files.Maps.{lookup, lookup-insert, lookup-erase}
use aviationwx_org_bridge.Config.Types.{
  Camera, GlobalSettings, ConfigEvent, camera_added, camera_updated,
}
use aviationwx_org_bridge.Config.Store.{Json, Faults, complete, write, write_settings}
use aviationwx_org_bridge.Config.Service.{
  Service, Failure, not_found, already_exists, refused, save_camera_file, saved, add_camera,
  update_with, update_camera, delete_known, delete_camera, update_global, set_global,
}
use aviationwx_org_bridge.Config.Calls.{Call, adds, updates, deletes, sets, step}

-- What a client sees.
pub record View : Type 0 where
  pub camera : Bytes → Option Camera
  pub settings : GlobalSettings

abbrev change_at : Bytes → Option Camera → View → View
change_at id o v = record v { camera = λ j. if bytes_eq j id then o else v.camera j }

abbrev updated : Bytes → Option Camera → View → Option Failure × View
updated id none v = (some refused, v)
updated id (some u) v = (none, change_at id (some (record u { id = id })) v)

abbrev renewed : Option GlobalSettings → View → Option Failure × View
renewed none v = (some refused, v)
renewed (some g) v = (none, record v { settings = g })

abbrev add_new : Option Camera → Camera → View → Option Failure × View
add_new none c v = (none, change_at c.id (some c) v)
add_new (some old) c v = (some already_exists, v)

abbrev update_known :
    Option Camera → Bytes → (Camera → Option Camera) → View → Option Failure × View
update_known none id change v = (some not_found, v)
update_known (some c) id change v = updated id (change c) v

abbrev removed : Option Camera → Bytes → View → Option Failure × View
removed none id v = (some not_found, v)
removed (some c) id v = (none, change_at id none v)

module _ (J : Json) where
  open J use {Text, of_camera, of_settings}

  abbrev pub view : Service Text → View
  view s = record { camera = λ j. lookup j s.cameras; settings = s.global }

  -- The answer to a call, and what is seen after it.
  abbrev pub answer_of : Call J → View → Option Failure × View
  answer_of (adds c) v = add_new (v.camera c.id) c v
  answer_of (updates id change) v = update_known (v.camera id) id change v
  answer_of (deletes id) v = removed (v.camera id) id v
  answer_of (sets change) v = renewed (change v.settings) v

  abbrev pub Shows : Option Failure × Service Text → Option Failure × View → Type 0
  Shows r a =
      (r.0 ≡ a.0)
      × ((j : Bytes) → lookup j r.1.cameras ≡ a.1.camera j)
      × (r.1.global ≡ a.1.settings)

  module _ (f : Faults Text) (writes : f.writing ≡ complete) where
    saved-Shows :
        (c : Camera) (e : ConfigEvent) (s : Service Text)
        → Shows
            (saved J c e s (save_camera_file J c f s.disk.camera_files))
            (none, change_at c.id (some c) (view s))
    unfolding saved save_camera_file write
    saved-Shows c e s = rw writes (refl, (λ j. lookup-insert j c.id c s.cameras), refl)

    add_camera-Shows :
        (c : Camera) (s : Service Text) → Shows (add_camera J c f s) (answer_of (adds c) (view s))
    unfolding add_camera
    add_camera-Shows c s =
        elim (lookup c.id s.cameras)
          as (λ o.
            Shows
              (elim o [
                | some old ↦ (some already_exists, s)
                | none ↦
                    saved J c (camera_added c.id) s (save_camera_file J c f s.disk.camera_files)
              ])
              (add_new o c (view s))) [
                | none ↦ saved-Shows c (camera_added c.id) s
                | some old ↦ (refl, (λ j. refl), refl)
              ]

    update_with-Shows :
        (id : Bytes) (o : Option Camera) (s : Service Text)
        → Shows (update_with J id o f s) (updated id o (view s))
    unfolding update_with
    update_with-Shows id none s = (refl, (λ j. refl), refl)
    update_with-Shows id (some u) s = saved-Shows (record u { id = id }) (camera_updated id) s

    pub update_camera-Shows :
        (id : Bytes) (change : Camera → Option Camera) (s : Service Text)
        → Shows (update_camera J id change f s) (answer_of (updates id change) (view s))
    unfolding update_camera
    update_camera-Shows id change s =
        elim (lookup id s.cameras)
          as (λ o.
            Shows (elim o [ none ↦ (some not_found, s) | some c ↦ update_with J id (change c) f s ])
              (update_known o id change (view s))) [
                | none ↦ (refl, (λ j. refl), refl)
                | some c ↦ update_with-Shows id (change c) s
              ]

    delete_camera-Shows :
        (id : Bytes) (s : Service Text)
        → f.remove_fails ≡ false
        → Shows (delete_camera J id f s) (answer_of (deletes id) (view s))
    unfolding delete_camera delete_known
    delete_camera-Shows id s removes =
        elim (lookup id s.cameras)
          as (λ o.
            Shows
              (elim o [ none ↦ (some not_found, s) | some c ↦ delete_known J id f.remove_fails s ])
              (removed o id (view s))) [
                | none ↦ (refl, (λ j. refl), refl)
                | some c ↦ rw removes (refl, (λ j. lookup-erase j id s.cameras), refl)
              ]

    set_global-Shows :
        (g : GlobalSettings) (s : Service Text)
        → Shows
            (set_global J g s (write_settings f.writing (of_settings g) s.disk.settings_file))
            (renewed (some g) (view s))
    unfolding set_global
    set_global-Shows g s = rw writes (refl, (λ j. refl), refl)

    update_global-Shows :
        (change : GlobalSettings → Option GlobalSettings) (s : Service Text)
        → Shows (update_global J change f s) (answer_of (sets change) (view s))
    unfolding update_global
    update_global-Shows change s =
        elim (change s.global)
          as (λ o.
            Shows
              (elim o [
                | none ↦ (some refused, s)
                | some g ↦
                    set_global J g s (write_settings f.writing (of_settings g) s.disk.settings_file)
              ])
              (renewed o (view s))) [
                | none ↦ (refl, (λ j. refl), refl)
                | some g ↦ set_global-Shows g s
              ]

  -- While writes and removals succeed, each call of the service answers, and changes the cameras and
  -- the settings, as the map of cameras says: adding wants a new id, updating and deleting a known one,
  -- an update keeps the id, and a refused change changes nothing.
  pub step-Shows :
      (call : Call J) (f : Faults Text) (s : Service Text)
      → f.writing ≡ complete
      → f.remove_fails ≡ false
      → Shows (step J call f s) (answer_of call (view s))
  step-Shows (adds c) f s writes removes = add_camera-Shows f writes c s
  step-Shows (updates id change) f s writes removes = update_camera-Shows f writes id change s
  step-Shows (deletes id) f s writes removes = delete_camera-Shows f writes id s removes
  step-Shows (sets change) f s writes removes = update_global-Shows f writes change s
