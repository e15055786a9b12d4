-- ===== src/Update/Tests.antt =====
-- Versions like those of internal/update/checker_test.go.
use aviationwx_org_bridge.Prelude.{◌≡◌, true, false, refl, arith, ◌∷◌}
use aviationwx_org_bridge.Files.Bytes.{codes, bytes_eq}
use aviationwx_org_bridge.Update.Versions.{
  Version, parse_version, compare_versions, is_newer_version, strip_v, read_byte, read_bytes,
}
use aviationwx_org_bridge.Update.Releases.{written, Writable, precedes, is_newer_version-precedes}

abbrev current : Version
current = record { major = 2; minor = 0; patch = 9 }

abbrev released : Version
released = record { major = 2; minor = 0; patch = 10 }

current-Writable : Writable current
current-Writable = (omega arith, omega arith, omega arith)

released-Writable : Writable released
released-Writable = (omega arith, omega arith, omega arith)

is_newer_version-precedes_example :
    (is_newer_version (written current) (written released) ≡ precedes current released)
    × (is_newer_version (written current) (b'v' ∷ written released) ≡ precedes current released)
is_newer_version-precedes_example =
    is_newer_version-precedes current released current-Writable released-Writable

-- A candidate of the release that runs is offered as an update.
candidate_newer : is_newer_version (codes "2.4.0") (codes "v2.4.0-rc1") ≡ true
unfolding is_newer_version bytes_eq strip_v compare_versions parse_version read_bytes read_byte
candidate_newer = refl

older_release : is_newer_version (codes "v2.0.10") (codes "v2.0.9") ≡ false
unfolding is_newer_version bytes_eq strip_v compare_versions parse_version read_bytes read_byte
older_release = refl
