-- ===== src/Queue/Thinning.antt =====
-- The operations of internal/queue/queue.go that drop images: emergencyThinForSpaceLocked,
-- emergencyThinLocked, EmergencyThin, thinQueue and ExpireOldImages.
use aviationwx_org_bridge.Prelude.{
  ℕ, zero, suc, ◌+◌, ◌-◌, ◌*◌, ◌/◌, Bool, true, false, not, ◌||◌, List, [], ◌∷◌, Option, none, some,
  ltb, leb, ◌==◌, if◌then◌else◌, length, take, drop, ◌≡◌, ◌⊎◌, arith,
}
use aviationwx_org_bridge.Prelude.Int.{pos, ◌-ℤ◌}
use aviationwx_org_bridge.Prelude.Ratio.{Ratio, ratio, scale}
use aviationwx_org_bridge.Prelude.Double.{Double, div_double, mul_trunc}
use aviationwx_org_bridge.Prelude.Clock.{GoTime, seconds, before}
use aviationwx_org_bridge.Files.Entry.{Entry, remove}
use aviationwx_org_bridge.Queue.Types.{
  Queue, QueueState, HealthLevel, healthy, catching_up, degraded, critical,
}
use aviationwx_org_bridge.Queue.Disk.{removed, not_exist, remove_failed, os_remove}
use aviationwx_org_bridge.Queue.Listing.{
  list_files_sorted, parse_timestamp_from_filename, recalculate_oldest, or_empty,
}
use aviationwx_org_bridge.Queue.Health.{update_health_level}

-- Why an image is dropped: the counter that is raised.
pub data Reason : Type 0 where
  thinned expired : Reason

abbrev pub raise_thinned : Reason → ℕ → ℕ
raise_thinned thinned n = n + 1
raise_thinned expired n = n

abbrev pub raise_expired : Reason → ℕ → ℕ
raise_expired thinned n = n
raise_expired expired n = n + 1

-- The counters after one file of a size was dropped.
abbrev pub uncount : Reason → ℕ → QueueState → QueueState
uncount r size s = record s {
  image_count = s.image_count -ℤ pos 1;
  total_size_bytes = s.total_size_bytes -ℤ pos size;
  images_thinned = raise_thinned r s.images_thinned;
  images_expired = raise_expired r s.images_expired;
}

-- The queue after one file was dropped.
abbrev pub drop_file : Reason → Entry → Queue → Queue
drop_file r f q = record q { entries = remove f.name q.entries; state = uncount r f.size q.state }

-- if err := os.Remove(filePath); err == nil { ... }, and how many files that removed.
unfoldable pub remove_counted : Reason → Entry → Queue → ℕ × Queue
unfolding os_remove
remove_counted r f q =
    let (outcome, q') = os_remove f.name q in
    elim outcome [
      | removed ↦ (1, record q' { state = uncount r f.size q'.state })
      | not_exist ↦ (0, q')
      | remove_failed ↦ (0, q')
    ]

-- Either nothing happens, or the file is dropped.
pub remove_counted_outcomes :
    (r : Reason) (f : Entry) (q : Queue)
    → (remove_counted r f q ≡ (0, q)) ⊎ (remove_counted r f q ≡ (1, drop_file r f q))
unfolding remove_counted
remove_counted_outcomes r f q = ground arith

-- The loops over `toRemove`, with the files removed so far.
unfoldable pub remove_all : Reason → List Entry → ℕ → Queue → ℕ × Queue
remove_all r [] count q = (count, q)
remove_all r (f ∷ fs) count q = let (k, q') = remove_counted r f q in remove_all r fs (count + k) q'

-- if removed > 0 { recalculateOldestLocked(); updateHealthLevelLocked() }
unfoldable pub settle : ℕ × Queue → ℕ × Queue
settle (count, q) =
    if ltb 0 count then (count, update_health_level (recalculate_oldest q)) else (count, q)

-- hasSpaceForImageLocked: optimistic where the free space is not known.
unfoldable pub has_space_for_image : ℕ → Queue → Bool
has_space_for_image size q = elim (q.environment.free_space q.entries) [
  | none ↦ true
  | some free ↦ ltb (size * 2) free
]

unfoldable pub thin_for_space : ℕ → List Entry → ℕ → Queue → ℕ × Queue
thin_for_space needed [] count q = (count, q)
thin_for_space needed (f ∷ fs) count q =
    let (k, q') = remove_counted thinned f q in
    let rest = thin_for_space needed fs (count + k) q' in
    if has_space_for_image needed q' then (count + k, q') else rest

-- if removed > 0 { recalculateOldestLocked() }
unfoldable pub settle_oldest : ℕ × Queue → Queue
settle_oldest (count, q) = if ltb 0 count then recalculate_oldest q else q

-- All but the newest file may go, oldest first, until there is space.
unfoldable pub emergency_thin_for_space : ℕ → Queue → Queue
emergency_thin_for_space needed q =
    let files = or_empty (list_files_sorted q) in
    if leb (length files) 1
    then q
    else settle_oldest (thin_for_space needed (take (length files - 1) files) 0 q)

-- keepCount := int(float64(len(files)) * keepRatio), and at least 1.
unfoldable pub keep_count : ℕ → Ratio → ℕ
keep_count n r = if ltb (scale n r) 1 then 1 else scale n r

unfoldable pub emergency_thin_locked : Ratio → Queue → ℕ × Queue
emergency_thin_locked r q =
    let files = or_empty (list_files_sorted q) in
    let n = length files in
    if n == 0
    then (0, q)
    else if leb n (keep_count n r)
    then (0, q)
    else settle (remove_all thinned (take (n - keep_count n r) files) 0 q)

-- The same body under the lock.
unfoldable pub emergency_thin : Ratio → Queue → ℕ × Queue
unfolding emergency_thin_locked
emergency_thin r q = emergency_thin_locked r q

-- The target of thinQueue; `none` for a healthy queue.
unfoldable pub target_count : HealthLevel → ℕ → Option ℕ
target_count healthy n = none
target_count catching_up n = some (scale n (ratio 8 10))
target_count degraded n = some (scale n (ratio 6 10))
target_count critical n = some (scale n (ratio 4 10))

-- removeIndices[idx], with the first `n` of the evenly spaced indices entered.
unfoldable pub marked : Double → ℕ → ℕ → Bool
marked step zero idx = false
marked step (suc n) idx = mul_trunc n step == idx || marked step n idx

-- The candidates whose index is in removeIndices, by index.
unfoldable pub select : (ℕ → Bool) → ℕ → List Entry → List Entry
select p i [] = []
select p i (f ∷ fs) = if p i then f ∷ select p (suc i) fs else select p (suc i) fs

-- protectOldest and protectNewest, where together they would cover all files a quarter each.
unfoldable pub protect : ℕ → ℕ → ℕ → ℕ × ℕ
protect oldest newest n = if leb n (oldest + newest) then (n / 4, n / 4) else (oldest, newest)

-- The files that thinQueue removes, of `files`, for a target.
unfoldable pub to_thin : ℕ → ℕ × ℕ → List Entry → List Entry
unfolding marked select
to_thin target (oldest, newest) files =
    let candidates = take (length files - newest - oldest) (drop oldest files) in
    let remove_count = length candidates - (target - oldest - newest) in
    if leb (length files) (oldest + newest)
    then []
    else if length candidates == 0
    then []
    else if remove_count == 0
    then []
    else select (marked (div_double (length candidates) remove_count) remove_count) 0 candidates

unfoldable pub thin_to : List Entry → Queue → Option ℕ → ℕ × Queue
thin_to files q none = (0, q)
thin_to files q (some target) =
    if leb (length files) target
    then (0, q)
    else settle (
        remove_all thinned
          (to_thin target (protect q.config.protect_oldest q.config.protect_newest (length files))
            files)
          0 q)

unfoldable pub thin_queue : Queue → Queue
unfolding thin_to
thin_queue q =
    let files = or_empty (list_files_sorted q) in
    if not q.config.thinning_enabled
    then q
    else if length files == 0
    then q
    else (thin_to files q (target_count q.health_level q.config.max_files)).1

-- The loop of ExpireOldImages, which stops at the first file that is not too old.
unfoldable pub expire_loop : GoTime → List Entry → ℕ → Queue → ℕ × Queue
expire_loop cutoff [] count q = (count, q)
expire_loop cutoff (f ∷ fs) count q =
    let (k, q') = remove_counted expired f q in
    let rest = expire_loop cutoff fs (count + k) q' in
    if before (parse_timestamp_from_filename f.name) cutoff then rest else (count, q)

unfoldable pub expire_old_images : GoTime → Queue → ℕ × Queue
expire_old_images now q =
    settle
      (expire_loop (now -ℤ seconds q.config.max_age_seconds) (or_empty (list_files_sorted q)) 0 q)
