-- ===== src/Update/Versions.antt =====
-- internal/update/checker.go: parseVersion, compareVersions and isNewerVersion.
use aviationwx_org_bridge.Prelude.{
  ℕ, zero, suc, ◌+◌, ◌-◌, ◌*◌, Bool, false, ◌||◌, [], ◌∷◌, if◌then◌else◌, ltb, leb, ◌==◌,
}
use aviationwx_org_bridge.Prelude.Int.{ℤ, pos, negsuc, ltb_ℤ}
use aviationwx_org_bridge.Files.Bytes.{Bytes, codes, bytes_eq}
use aviationwx_org_bridge.Files.Decimal.{is_digit}

-- [3]int
pub record Version : Type 0 where
  pub major : ℕ
  pub minor : ℕ
  pub patch : ℕ

-- The variables of the loop of parseVersion.
pub record Reading : Type 0 where
  pub parts : Version
  pub current : ℕ
  pub idx : ℕ

-- parts[idx] = current, with idx < 3
abbrev pub set_part : ℕ → ℕ → Version → Version
set_part zero n v = record v { major = n }
set_part (suc zero) n v = record v { minor = n }
set_part (suc (suc _)) n v = record v { patch = n }

-- One round; once three parts are read, the rest changes nothing.
unfoldable pub read_byte : ℕ → Reading → Reading
read_byte c r =
    if leb 3 r.idx
    then r
    else if is_digit c
    then record r { current = r.current * 10 + (c - b'0') }
    else if c == b'.'
    then record r { parts = set_part r.idx r.current r.parts; current = 0; idx = r.idx + 1 }
    else r

unfoldable pub read_bytes : Bytes → Reading → Reading
read_bytes [] r = r
read_bytes (c ∷ cs) r = read_bytes cs (read_byte c r)

abbrev pub last_part : Reading → Version
last_part r = if ltb r.idx 3 then set_part r.idx r.current r.parts else r.parts

abbrev pub start : Reading
start = record { parts = record { major = 0; minor = 0; patch = 0 }; current = 0; idx = 0 }

unfoldable pub parse_version : Bytes → Version
parse_version v = last_part (read_bytes v start)

-- 1 or -1 if the parts differ, and else what the later parts say.
abbrev pub compare_part : ℕ → ℕ → ℤ → ℤ
compare_part a b later = if ltb b a then pos 1 else if ltb a b then negsuc 0 else later

abbrev pub compare_parts : Version → Version → ℤ
compare_parts v w =
    compare_part v.major w.major
      (compare_part v.minor w.minor (compare_part v.patch w.patch (pos 0)))

unfoldable pub compare_versions : Bytes → Bytes → ℤ
compare_versions v1 v2 = compare_parts (parse_version v1) (parse_version v2)

unfoldable pub strip_v : Bytes → Bytes
strip_v [] = []
strip_v (c ∷ cs) = if c == b'v' then cs else c ∷ cs

-- isNewerVersion, with the current version first.
unfoldable pub is_newer_version : Bytes → Bytes → Bool
is_newer_version current tag =
    if bytes_eq current (codes "dev") || bytes_eq current []
    then false
    else if bytes_eq (strip_v current) (strip_v tag)
    then false
    else ltb_ℤ (pos 0) (compare_versions (strip_v tag) (strip_v current))
