-- ===== src/Logs/Tests.antt =====
-- The theorem on internal/logger/buffer.go with four lines.
use aviationwx_org_bridge.Prelude.{◌≡◌, refl, List, [], ◌∷◌, ◌++◌, some, length, min, arith}
use aviationwx_org_bridge.Prelude.Int.{pos}
use aviationwx_org_bridge.Files.Bytes.{Bytes, codes}
use aviationwx_org_bridge.Logs.Buffer.{LogEntry, new_buffer, add, nil_ring, get_last}
use aviationwx_org_bridge.Logs.Latest.{add_lines, get_last-add_lines}

abbrev line : Bytes → LogEntry
line message = record { timestamp = pos 0; level = codes "INFO"; message = message; attrs = [] }

abbrev four_lines : List LogEntry
four_lines =
    line (codes "starting")
    ∷ line (codes "camera added")
    ∷ line (codes "captured")
    ∷ line (codes "uploaded")
    ∷ []

-- A buffer of three, and the last two.
get_last-add_lines_example :
    (older latest : List LogEntry) × (get_last (pos 2) (add_lines four_lines (new_buffer 3))
      ≡ some latest)
    × (four_lines ≡ older ++ latest)
    × (length latest ≡ min 2 (min 3 (length four_lines)))
get_last-add_lines_example = get_last-add_lines 3 2 four_lines (omega arith)

newest_last :
    get_last (pos 2) (add_lines four_lines (new_buffer 3))
    ≡ some (line (codes "captured") ∷ line (codes "uploaded") ∷ [])
unfolding get_last add_lines add nil_ring
newest_last = refl
