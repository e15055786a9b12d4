-- ===== src/Config/Validator.antt =====
-- internal/config/validator.go: Validate and validateCamera, with the first check that fails.
use aviationwx_org_bridge.Prelude.{
  ℕ, Bool, true, false, not, ◌||◌, ◌&&◌, List, [], ◌∷◌, Option, none, some, if◌then◌else◌, ◌==◌,
  leb,
}
use aviationwx_org_bridge.Prelude.Int.{ℤ, pos, ltb_ℤ, negsuc}
use aviationwx_org_bridge.Files.Bytes.{Bytes, codes, bytes_eq}
use aviationwx_org_bridge.Files.Maps.{contains_key}
use aviationwx_org_bridge.Config.Types.{Camera, Config, Onvif, Rtsp, Upload}

pub data Problem : Type 0 where
  unsupported_version no_host no_username no_password no_cameras : Problem
  no_id bad_id no_name bad_kind no_snapshot_url no_onvif no_onvif_endpoint no_onvif_username :
      Problem
  no_onvif_password no_rtsp no_rtsp_url short_interval no_remote_path dotted_path absolute_path :
      Problem
  duplicate_id : Problem

-- What Validate does: it returns an error or nil, or dereferences a nil pointer.
pub data Verdict : Type 0 where
  accepted panics : Verdict
  rejected : Problem → Verdict

abbrev pub is_blank : Bytes → Bool
is_blank [] = true
is_blank (c ∷ cs) = false

-- The first of some checks that fails.
unfoldable pub first_failed : List (Bool × Problem) → Option Problem
first_failed [] = none
first_failed ((failed, p) ∷ rest) = if failed then some p else first_failed rest

abbrev pub is_id_char : ℕ → Bool
is_id_char r =
    (leb b'a' r && leb r b'z')
    || (leb b'A' r && leb r b'Z')
    || (leb b'0' r && leb r b'9')
    || r == b'-'

unfoldable pub is_id : Bytes → Bool
is_id [] = true
is_id (c ∷ cs) = is_id_char c && is_id cs

abbrev pub starts_dotted : Bytes → Bool
starts_dotted (c ∷ d ∷ cs) = c == b'.' && d == b'.'
starts_dotted _ = false

-- strings.Contains(s, "..")
unfoldable pub contains_dots : Bytes → Bool
contains_dots [] = false
contains_dots (c ∷ cs) = starts_dotted (c ∷ cs) || contains_dots cs

-- strings.HasPrefix(s, "/")
abbrev pub is_absolute : Bytes → Bool
is_absolute [] = false
is_absolute (c ∷ cs) = c == b'/'

abbrev pub onvif_checks : Option Onvif → List (Bool × Problem)
onvif_checks none = (true, no_onvif) ∷ []
onvif_checks (some o) =
    (is_blank o.endpoint, no_onvif_endpoint)
    ∷ (is_blank o.username, no_onvif_username)
    ∷ (is_blank o.password, no_onvif_password)
    ∷ []

abbrev pub rtsp_checks : Option Rtsp → List (Bool × Problem)
rtsp_checks none = (true, no_rtsp) ∷ []
rtsp_checks (some r) = (is_blank r.url, no_rtsp_url) ∷ []

-- switch cam.Type
unfoldable pub kind_problem : Camera → Option Problem
unfolding first_failed
kind_problem c =
    if bytes_eq c.kind (codes "http")
    then first_failed ((is_blank c.snapshot_url, no_snapshot_url) ∷ [])
    else if bytes_eq c.kind (codes "onvif")
    then first_failed (onvif_checks c.onvif)
    else if bytes_eq c.kind (codes "rtsp")
    then first_failed (rtsp_checks c.rtsp)
    else some bad_kind

-- The second check only if the first finds nothing.
abbrev pub or_next : Option Problem → Option Problem → Option Problem
or_next none later = later
or_next (some p) later = some p

unfoldable pub validate_camera : Camera → Option Problem
unfolding first_failed kind_problem
validate_camera c =
    or_next
      (first_failed
        ((is_blank c.id, no_id) ∷ (not (is_id c.id), bad_id) ∷ (is_blank c.name, no_name) ∷ []))
      (or_next (kind_problem c) (
        first_failed (
          (ltb_ℤ c.interval_seconds (pos 30), short_interval)
          ∷ (is_blank c.remote_path, no_remote_path)
          ∷ (contains_dots c.remote_path, dotted_path)
          ∷ (is_absolute c.remote_path, absolute_path)
          ∷ [])))

-- The loop over the cameras, with the ids of those before.
unfoldable pub validate_cameras : List Bytes → List Camera → Verdict
validate_cameras ids [] = accepted
validate_cameras ids (c ∷ cs) =
    let rest = validate_cameras (c.id ∷ ids) cs in
    elim (validate_camera c) [
      | some p ↦ rejected p
      | none ↦ if contains_key c.id ids then rejected duplicate_id else rest
    ]

abbrev pub upload_checks : Upload → List (Bool × Problem)
upload_checks u =
    (is_blank u.host, no_host)
    ∷ (is_blank u.username, no_username)
    ∷ (is_blank u.password, no_password)
    ∷ []

abbrev pub validate_list : List Camera → Verdict
validate_list [] = rejected no_cameras
validate_list (c ∷ cs) = validate_cameras [] (c ∷ cs)

abbrev pub is_one : ℤ → Bool
is_one (pos n) = n == 1
is_one (negsuc n) = false

unfoldable pub validate : Config → Verdict
unfolding validate_cameras
validate c = if not (is_one c.version) then rejected unsupported_version else elim c.upload [
  | none ↦ panics
  | some u ↦ elim (first_failed (upload_checks u)) [
    | some p ↦ rejected p
    | none ↦ validate_list c.cameras
  ]
]
