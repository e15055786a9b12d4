-- ===== src/Config/Service.antt =====
-- internal/config/service.go: the operations of the configuration service, and its start. The service
-- is locked for each call, so a call is one function; listeners get the events.
use aviationwx_org_bridge.Prelude.{
  Bool, true, false, List, [], ◌∷◌, ◌++◌, Option, none, some, if◌then◌else◌,
}
use aviationwx_org_bridge.Files.Bytes.{Bytes, codes, bytes_lt, has_suffix}
use aviationwx_org_bridge.Files.Maps.{lookup, insert, erase}
use aviationwx_org_bridge.Config.Types.{
  Camera, GlobalSettings, ConfigEvent, camera_added, camera_updated, camera_deleted, global_updated,
  default_settings, default_sntp, Sntp,
}
use aviationwx_org_bridge.Config.Defaults.{normalize}
use aviationwx_org_bridge.Config.Store.{
  Json, Node, text, unreadable, folder, Disk, Faults, file_of, write, back_up, write_settings,
}

-- The events are those that were sent, in order.
pub record Service (T : Type 0) : Type 0 where
  pub global : GlobalSettings
  pub cameras : List (Bytes × Camera)
  pub disk : Disk T
  pub events : List ConfigEvent

pub data Failure : Type 0 where
  not_found already_exists refused write_failed remove_failed : Failure

-- sort.Slice by id, for cameras with different ids.
unfoldable pub insert_by_id : Camera → List Camera → List Camera
insert_by_id c [] = c ∷ []
insert_by_id c (d ∷ ds) = if bytes_lt d.id c.id then d ∷ insert_by_id c ds else c ∷ d ∷ ds

unfoldable pub sort_by_id : List (Bytes × Camera) → List Camera
unfolding insert_by_id
sort_by_id [] = []
sort_by_id ((id, c) ∷ m) = insert_by_id c (sort_by_id m)

module _ (J : Json) where
  open J use {Text, of_camera, of_settings, to_camera, to_settings}

  abbrev pub get_camera : Bytes → Service Text → Option Camera
  get_camera id s = lookup id s.cameras

  unfoldable pub list_cameras : Service Text → List Camera
  list_cameras s = sort_by_id s.cameras

  unfoldable pub save_camera_file :
      Camera → Faults Text → List (Bytes × Node Text) → Bool × List (Bytes × Node Text)
  save_camera_file c f files =
      write f.writing (file_of c.id) (of_camera c) (back_up f.backup (file_of c.id) files)

  -- The end of AddCamera and UpdateCamera, after the file was written or not.
  unfoldable pub saved :
      Camera
      → ConfigEvent
      → Service Text
      → Bool × List (Bytes × Node Text)
      → Option Failure × Service Text
  saved c e s (true, files) = (
    none,
    record s {
      cameras = insert c.id c s.cameras;
      disk = record (s.disk) { camera_files = files };
      events = s.events ++ e ∷ [];
    },
  )
  saved c e s (false, files) =
      (some write_failed, record s { disk = record (s.disk) { camera_files = files } })

  unfoldable pub add_camera : Camera → Faults Text → Service Text → Option Failure × Service Text
  unfolding saved save_camera_file
  add_camera c f s = elim (lookup c.id s.cameras) [
    | some old ↦ (some already_exists, s)
    | none ↦ saved c (camera_added c.id) s (save_camera_file c f s.disk.camera_files)
  ]

  -- With what the caller's function makes of the camera, or none if it returns an error.
  unfoldable pub update_with :
      Bytes → Option Camera → Faults Text → Service Text → Option Failure × Service Text
  unfolding saved save_camera_file
  update_with id none f s = (some refused, s)
  update_with id (some u) f s =
      saved (record u { id = id }) (camera_updated id) s
        (save_camera_file (record u { id = id }) f s.disk.camera_files)

  unfoldable pub update_camera :
      Bytes → (Camera → Option Camera) → Faults Text → Service Text → Option Failure × Service Text
  unfolding update_with
  update_camera id change f s = elim (lookup id s.cameras) [
    | none ↦ (some not_found, s)
    | some c ↦ update_with id (change c) f s
  ]

  -- With whether os.Remove fails; that the file is not there is no failure.
  unfoldable pub delete_known : Bytes → Bool → Service Text → Option Failure × Service Text
  delete_known id true s = (some remove_failed, s)
  delete_known id false s = (
    none,
    record s {
      cameras = erase id s.cameras;
      disk = record (s.disk) { camera_files = erase (file_of id) s.disk.camera_files };
      events = s.events ++ camera_deleted id ∷ [];
    },
  )

  unfoldable pub delete_camera : Bytes → Faults Text → Service Text → Option Failure × Service Text
  unfolding delete_known
  delete_camera id f s = elim (lookup id s.cameras) [
    | none ↦ (some not_found, s)
    | some c ↦ delete_known id f.remove_fails s
  ]

  unfoldable pub set_global :
      GlobalSettings → Service Text → Bool × Option (Node Text) → Option Failure × Service Text
  set_global g s (true, file) = (
    none,
    record s {
      global = g;
      disk = record (s.disk) { settings_file = file };
      events = s.events ++ global_updated ∷ [];
    },
  )
  set_global g s (false, file) =
      (some write_failed, record s { disk = record (s.disk) { settings_file = file } })

  unfoldable pub update_global :
      (GlobalSettings → Option GlobalSettings)
      → Faults Text
      → Service Text
      → Option Failure × Service Text
  unfolding set_global
  update_global change f s = elim (change s.global) [
    | none ↦ (some refused, s)
    | some g ↦ set_global g s (write_settings f.writing (of_settings g) s.disk.settings_file)
  ]

  -- What the loop of reload makes of an entry: it is passed over, refused, or a camera.
  pub data Loaded : Type 0 where
    passed broken : Loaded
    camera : Camera → Loaded

  unfoldable pub parse_camera : Option Camera → Loaded
  parse_camera none = broken
  parse_camera (some c) = camera (normalize c)

  unfoldable pub load_entry : Bytes → Node Text → Loaded
  unfolding parse_camera
  load_entry name folder = passed
  load_entry name unreadable = if has_suffix name (codes ".json") then broken else passed
  load_entry name (text t) =
      if has_suffix name (codes ".json") then parse_camera (to_camera t) else passed

  -- The cameras after the loop, and whether it came to its end.
  unfoldable pub load_cameras :
      List (Bytes × Node Text) → List (Bytes × Camera) → Bool × List (Bytes × Camera)
  unfolding load_entry
  load_cameras [] m = (true, m)
  load_cameras ((name, node) ∷ es) m = elim (load_entry name node) [
    | broken ↦ (false, m)
    | passed ↦ load_cameras es m
    | camera c ↦ load_cameras es (insert c.id c m)
  ]

  abbrev pub read_settings : Option (Node Text) → Option GlobalSettings
  read_settings (some (text t)) = to_settings t
  read_settings _ = none

  -- reload: the settings, if all could be loaded, and the cameras that were.
  unfoldable pub reload : Faults Text → Disk Text → Option GlobalSettings × List (Bytes × Camera)
  unfolding load_cameras
  reload f d = elim (read_settings d.settings_file) [
    | none ↦ (none, [])
    | some g ↦
        if f.directory_unreadable
        then (none, [])
        else let (complete, m) = load_cameras d.camera_files [] in
          (if complete then some g else none, m)
  ]

  pub data Opened : Type 0 where
    opened : Service Text → Opened
    not_opened : Disk Text → Opened

  -- A service with settings that have to be written first.
  unfoldable pub open_saved :
      GlobalSettings → List (Bytes × Camera) → Disk Text → Bool × Option (Node Text) → Opened
  open_saved g m d (true, file) =
      opened
        (record { global = g; cameras = m; disk = record d { settings_file = file }; events = [] })
  open_saved g m d (false, file) = not_opened (record d { settings_file = file })

  abbrev pub open_with : GlobalSettings → List (Bytes × Camera) → Faults Text → Disk Text → Opened
  open_with g m f d = open_saved g m d (write_settings f.writing (of_settings g) d.settings_file)

  abbrev pub open_sntp :
      Option Sntp → GlobalSettings → List (Bytes × Camera) → Faults Text → Disk Text → Opened
  open_sntp none g m f d = open_with (record g { sntp = some default_sntp }) m f d
  open_sntp (some x) g m f d = opened (record { global = g; cameras = m; disk = d; events = [] })

  unfoldable pub open_loaded :
      Option GlobalSettings × List (Bytes × Camera) → Faults Text → Disk Text → Opened
  unfolding open_saved
  open_loaded (none, m) f d = open_with default_settings m f d
  open_loaded (some g, m) f d = open_sntp g.sntp g m f d

  -- NewService; the directories can be made.
  unfoldable pub new_service : Faults Text → Disk Text → Opened
  unfolding open_loaded reload
  new_service f d = open_loaded (reload f d) f d
