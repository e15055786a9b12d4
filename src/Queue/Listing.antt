-- ===== src/Queue/Listing.antt =====
-- listFilesSortedLocked, parseTimestampFromFilename and recalculateOldestLocked of
-- internal/queue/queue.go.
use aviationwx_org_bridge.Prelude.{
  Bool, true, false, not, ◌&&◌, ◌||◌, List, [], ◌∷◌, Option, none, some, if◌then◌else◌, keep,
}
use aviationwx_org_bridge.Prelude.Int.{ℤ}
use aviationwx_org_bridge.Prelude.Clock.{GoTime, zero_time, from_unix_milli}
use aviationwx_org_bridge.Files.Bytes.{Bytes, has_suffix, trim_suffix}
use aviationwx_org_bridge.Files.Decimal.{parse_int}
use aviationwx_org_bridge.Files.Entry.{Entry, sort_by_name}
use aviationwx_org_bridge.Queue.Types.{Queue}
use aviationwx_org_bridge.Queue.Disk.{jpg, tmp}

abbrev pub is_some {ℓ} : {A : Type ℓ} → Option A → Bool
is_some none = false
is_some (some _) = true

-- A file with a numeric name and the ending .jpg, whose FileInfo can be read.
unfoldable pub is_image : Entry → Bool
is_image e =
    if e.is_dir
    then false
    else if not (has_suffix e.name jpg) || has_suffix e.name tmp
    then false
    else is_some (parse_int (trim_suffix e.name jpg)) && e.has_info

-- The image files of a directory.
abbrev pub images : List Entry → List Entry
images = keep is_image

-- `none` if the directory cannot be read.
unfoldable pub list_files_sorted : Queue → Option (List Entry)
list_files_sorted q =
    if q.environment.read_dir_fails q.entries then none else some (sort_by_name (images q.entries))

abbrev or_zero : Option ℤ → GoTime
or_zero none = zero_time
or_zero (some ms) = from_unix_milli ms

unfoldable pub parse_timestamp_from_filename : Bytes → GoTime
parse_timestamp_from_filename n = or_zero (parse_int (trim_suffix n jpg))

abbrev pub last : Entry → List Entry → Entry
last e [] = e
last e (f ∷ fs) = last f fs

-- Nothing is left, or nothing can be read: no oldest and no newest image.
abbrev pub with_ends : Queue → List Entry → Queue
with_ends q [] = record q {
  state = record (q.state) { oldest_timestamp = zero_time; newest_timestamp = zero_time };
}
with_ends q (e ∷ es) = record q {
  state = record (q.state) {
    oldest_timestamp = parse_timestamp_from_filename e.name;
    newest_timestamp = parse_timestamp_from_filename (last e es).name;
  };
}

abbrev pub or_empty : Option (List Entry) → List Entry
or_empty none = []
or_empty (some es) = es

unfoldable pub recalculate_oldest : Queue → Queue
recalculate_oldest q = with_ends q (or_empty (list_files_sorted q))
