-- ===== src/Config/Defaults.antt =====
-- What the configuration fills in: NormalizeUploadConfig of internal/config/migrate.go, GetQuality,
-- NeedsProcessing, GetWebPassword and GetWebPort of internal/config/types.go and service.go.
use aviationwx_org_bridge.Prelude.{
  ℕ, ◌+◌, Bool, false, ◌||◌, ◌&&◌, [], ◌∷◌, Option, none, some, if◌then◌else◌, ◌==◌, leb, reverse,
  map,
}
use aviationwx_org_bridge.Prelude.Int.{ℤ, pos, negsuc, ltb_ℤ}
use aviationwx_org_bridge.Files.Bytes.{Bytes, codes, bytes_eq}
use aviationwx_org_bridge.Config.Types.{Upload, ImageProcessing, GlobalSettings, Camera}

-- strings.TrimSpace and strings.ToLower, of ASCII.
abbrev pub is_space : ℕ → Bool
is_space c = c == 32 || (leb 9 c && leb c 13)

unfoldable pub trim_left : Bytes → Bytes
trim_left [] = []
trim_left (c ∷ cs) = if is_space c then trim_left cs else c ∷ cs

unfoldable pub trim_space : Bytes → Bytes
unfolding trim_left
trim_space s = reverse (trim_left (reverse (trim_left s)))

abbrev pub lower : ℕ → ℕ
lower c = if leb b'A' c && leb c b'Z' then c + 32 else c

unfoldable pub to_lower : Bytes → Bytes
to_lower s = map lower s

abbrev pub is_zero : ℤ → Bool
is_zero (pos n) = n == 0
is_zero (negsuc n) = false

-- case 21, 2121, 990
abbrev pub is_ftps_port : ℤ → Bool
is_ftps_port (pos n) = n == 21 || n == 2121 || n == 990
is_ftps_port (negsuc n) = false

abbrev pub sftp : Bytes
sftp = codes "sftp"

abbrev pub default_port : ℤ
default_port = pos 2222

-- The switch on the protocol, in lower case and without white space around.
unfoldable pub migrate_protocol : Bytes → Upload → Upload
migrate_protocol protocol u =
    if bytes_eq protocol [] || bytes_eq protocol (codes "ftps") || bytes_eq protocol (codes "ftp")
    then record u { protocol = sftp; port = if is_ftps_port u.port then default_port else u.port }
    else u

abbrev pub or_default : ℤ → ℤ → ℤ
or_default d n = if is_zero n then d else n

unfoldable pub fill_in : Upload → Upload
fill_in u = record u {
  port = or_default default_port u.port;
  timeout_connect_seconds = or_default (pos 60) u.timeout_connect_seconds;
  timeout_upload_seconds = or_default (pos 300) u.timeout_upload_seconds;
}

unfoldable pub normalize_upload : Upload → Upload
normalize_upload u = fill_in (migrate_protocol (to_lower (trim_space u.protocol)) u)

-- NormalizeUploadConfig, on a pointer.
abbrev pub normalize_upload_config : Option Upload → Option Upload
normalize_upload_config none = none
normalize_upload_config (some u) = some (normalize_upload u)

abbrev pub normalize : Camera → Camera
normalize c = record c { upload = normalize_upload_config c.upload }

unfoldable pub get_quality : Option ImageProcessing → ℤ
get_quality none = pos 0
get_quality (some i) =
    if ltb_ℤ i.quality (pos 0)
    then pos 0
    else if ltb_ℤ (pos 100) i.quality
    then pos 100
    else i.quality

unfoldable pub needs_processing : Option ImageProcessing → Bool
needs_processing none = false
needs_processing (some i) =
    ltb_ℤ (pos 0) i.max_width || ltb_ℤ (pos 0) i.max_height || ltb_ℤ (pos 0) i.quality

abbrev pub default_password : Bytes
default_password = codes "aviationwx"

-- The service's GetWebPassword; that of Config also asks the deprecated BasicAuth.
unfoldable pub get_web_password : GlobalSettings → Bytes
get_web_password g = elim g.web_console [
  | none ↦ default_password
  | some w ↦ if bytes_eq w.password [] then default_password else w.password
]

unfoldable pub get_web_port : GlobalSettings → ℤ
get_web_port g = elim g.web_console [ none ↦ pos 1229 | some w ↦ or_default (pos 1229) w.port ]
