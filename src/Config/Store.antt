-- ===== src/Config/Store.antt =====
-- The files of internal/config/service.go: global.json, and the directory with one file for each
-- camera, in the order of os.ReadDir. What a file says is what encoding/json makes of it and reads.
use aviationwx_org_bridge.Prelude.{
  ◌≡◌, Bool, true, false, List, [], ◌∷◌, ◌++◌, Option, none, some, if◌then◌else◌, ◌||◌, ◌==◌,
}
use aviationwx_org_bridge.Files.Bytes.{Bytes, codes, bytes_lt}
use aviationwx_org_bridge.Files.Maps.{lookup, erase}
use aviationwx_org_bridge.Config.Types.{Camera, GlobalSettings, Config}

-- json.MarshalIndent and json.Unmarshal of the settings and of a camera, and the latter of the old
-- configuration.
pub record Json : Type 1 where
  pub Text : Type 0
  pub of_camera : Camera → Text
  pub of_settings : GlobalSettings → Text
  pub to_camera : Text → Option Camera
  pub to_settings : Text → Option GlobalSettings
  pub to_config : Text → Option Config

-- What was written is read back.
pub record ReadsBack (J : Json) : Type 0 where
  pub camera_back : (c : Camera) → J.to_camera (J.of_camera c) ≡ some c
  pub settings_back : (g : GlobalSettings) → J.to_settings (J.of_settings g) ≡ some g

-- An entry of a directory. A file may be there and not be readable.
pub data Node (T : Type 0) : Type 0 where
  text : T → Node T
  unreadable folder : Node T

pub record Disk (T : Type 0) : Type 0 where
  pub settings_file : Option (Node T)
  pub camera_files : List (Bytes × Node T)

-- What fails in a call: os.WriteFile may fail before or after it has cut the file, os.Remove may
-- fail, and a backup is made as well as it can be.
pub data Written (T : Type 0) : Type 0 where
  complete untouched : Written T
  damaged : Node T → Written T

pub record Faults (T : Type 0) : Type 0 where
  pub writing : Written T
  pub backup : Option (Node T)
  pub remove_fails : Bool
  pub directory_unreadable : Bool

-- id + ".json", for an id without a slash.
abbrev pub file_of : Bytes → Bytes
file_of id = id ++ codes ".json"

-- An id that filepath.Join leaves alone, so that its file is that one: it has no slash.
unfoldable pub has_slash : Bytes → Bool
has_slash [] = false
has_slash (b ∷ bs) = b == b'/' || has_slash bs

abbrev pub PlainId : Bytes → Type 0
PlainId id = has_slash id ≡ false

abbrev pub backup_of : Bytes → Bytes
backup_of name = name ++ codes ".bak"

module _ {T : Type 0} where
  unfoldable pub place : Bytes → Node T → List (Bytes × Node T) → List (Bytes × Node T)
  place n v [] = (n, v) ∷ []
  place n v ((m, w) ∷ es) = if bytes_lt m n then (m, w) ∷ place n v es else (n, v) ∷ (m, w) ∷ es

  -- A new entry, in place of one of the same name.
  unfoldable pub put : Bytes → Node T → List (Bytes × Node T) → List (Bytes × Node T)
  unfolding place
  put n v es = place n v (erase n es)

  -- The file after a write of some content, and whether the write succeeded.
  unfoldable pub write :
      Written T → Bytes → T → List (Bytes × Node T) → Bool × List (Bytes × Node T)
  write complete n t es = (true, put n (text t) es)
  write untouched n t es = (false, es)
  write (damaged v) n t es = (false, put n v es)

  -- copyFile to path + ".bak", if there is a file to copy.
  unfoldable pub back_up : Option (Node T) → Bytes → List (Bytes × Node T) → List (Bytes × Node T)
  back_up none n es = es
  back_up (some v) n es = elim (lookup n es) [ none ↦ es | some _ ↦ put (backup_of n) v es ]

  abbrev pub write_settings : Written T → T → Option (Node T) → Bool × Option (Node T)
  write_settings complete t old = (true, some (text t))
  write_settings untouched t old = (false, old)
  write_settings (damaged v) t old = (false, some v)
