-- ===== src/Queue/Disk.antt =====
-- The file operations of internal/queue/queue.go on the queue's directory.
use aviationwx_org_bridge.Prelude.{
  ℕ, Bool, true, false, List, ◌++◌, Option, none, some, if◌then◌else◌, ◌≡◌, ◌⊎◌, arith,
}
use aviationwx_org_bridge.Prelude.Int.{ℤ}
use aviationwx_org_bridge.Files.Bytes.{Bytes, codes}
use aviationwx_org_bridge.Files.Decimal.{show_int}
use aviationwx_org_bridge.Files.Entry.{Entry, find, remove, put}
use aviationwx_org_bridge.Queue.Types.{Queue, WriteFault, no_space, other_fault}

abbrev pub jpg : Bytes
jpg = codes ".jpg"

abbrev pub tmp : Bytes
tmp = codes ".tmp"

-- fmt.Sprintf("%d.jpg", ms).
unfoldable pub file_name : ℤ → Bytes
file_name ms = show_int ms ++ jpg

pub data RemoveOutcome : Type 0 where
  removed not_exist remove_failed : RemoveOutcome

-- os.Remove.
unfoldable pub os_remove : Bytes → Queue → RemoveOutcome × Queue
os_remove n q = elim (find n q.entries) [
  | none ↦ (not_exist, q)
  | some _ ↦
      if q.environment.remove_fails q.entries n
      then (remove_failed, q)
      else (removed, record q { entries = remove n q.entries })
]

pub os_remove_found :
    (n : Bytes) (q : Queue) (f : Entry)
    → find n q.entries ≡ some f
    → (os_remove n q ≡ (remove_failed, q))
      ⊎ (os_remove n q ≡ (removed, record q { entries = remove n q.entries }))
unfolding os_remove
os_remove_found n q f h = ground arith

pub os_remove_missing :
    (n : Bytes) (q : Queue) → find n q.entries ≡ none → os_remove n q ≡ (not_exist, q)
unfolding os_remove
os_remove_missing n q h = ground arith

-- A removal changes nothing, or takes the name out.
pub os_remove_outcomes :
    (n : Bytes) (q : Queue)
    → ((os_remove n q).1 ≡ q) ⊎ ((os_remove n q).1 ≡ record q { entries = remove n q.entries })
unfolding os_remove
os_remove_outcomes n q = ground arith

abbrev pub regular_file : Bytes → ℕ → Entry
regular_file n size = record { name = n; is_dir = false; has_info = true; size = size }

-- What a failed write leaves.
abbrev pub leave : Bytes → Option ℕ → List Entry → List Entry
leave n none es = es
leave n (some size) es = put (regular_file n size) es

abbrev pub after_fault : Bytes → WriteFault → List Entry → List Entry
after_fault n (no_space left) es = leave n left es
after_fault n (other_fault left) es = leave n left es

-- os.WriteFile.
unfoldable pub os_write_file : Bytes → ℕ → Queue → Option WriteFault × Queue
os_write_file n size q = elim (q.environment.write_fault q.entries n size) [
  | none ↦ (none, record q { entries = put (regular_file n size) q.entries })
  | some fault ↦ (some fault, record q { entries = after_fault n fault q.entries })
]

-- os.Rename of a file that was just written; true if it succeeds.
unfoldable pub os_rename : Bytes → Bytes → ℕ → Queue → Bool × Queue
os_rename from to size q =
    if q.environment.rename_fails q.entries from
    then (false, q)
    else (true, record q { entries = put (regular_file to size) (remove from q.entries) })
