-- ===== src/Queue/Store.antt =====
-- Enqueue of internal/queue/queue.go keeps the counters of the queue right, on every path, and
-- stores what it accepts.
use aviationwx_org_bridge.Prelude.{
  false, ℕ, suc, ◌+◌, ◌*◌, ◌/◌, ◌^◌, ◌≤◌, ◌<◌, ◌≡◌, inl, inr, some, arith, length, Option-cases,
  Bool-cases,
}
use aviationwx_org_bridge.Prelude.Int.{pos}
use aviationwx_org_bridge.Prelude.Clock.{GoTime, millisecond, unix_milli}
use aviationwx_org_bridge.Files.Bytes.{Bytes}
use aviationwx_org_bridge.Files.Entry.{find}
use aviationwx_org_bridge.Files.Directory.{length-remove}
use aviationwx_org_bridge.Queue.Types.{Queue}
use aviationwx_org_bridge.Queue.Disk.{file_name, regular_file}
use aviationwx_org_bridge.Queue.Listing.{recalculate_oldest}
use aviationwx_org_bridge.Queue.Health.{update_health_level}
use aviationwx_org_bridge.Queue.Thinning.{has_space_for_image}
use aviationwx_org_bridge.Queue.Enqueue.{
  WriteResult, written, not_written, write_error, free_name, check_image, make_space, count_image,
  finish, store_image, enqueue, EnqueueResult, enqueued, refused, out_of_fuel,
}
use aviationwx_org_bridge.Queue.Consistent.{Consistent, update_health_level-Consistent}
use aviationwx_org_bridge.Queue.Stable.{Stable, Consistent-Stable, emergency_thin_for_space-Stable}
use aviationwx_org_bridge.Queue.Names.{is_image-file_name, free_name_found, free_name_total}
use aviationwx_org_bridge.Queue.Writes.{WriteLeaves, write_image-WriteLeaves}

finish-Consistent :
    (path : Bytes) (size : ℕ) (t : GoTime) (w : WriteResult × Queue)
    → WriteLeaves path size w
    → Consistent (finish size t w).1
unfolding finish count_image
finish-Consistent path size t (written, q) s =
    update_health_level-Consistent _
      (record { distinct = s.distinct; counted = s.counted; sized = s.sized })
finish-Consistent path size t (not_written, q) c = record {
  distinct = c.distinct;
  counted = c.counted;
  sized = c.sized;
}
finish-Consistent path size t (write_error e, q) c = c

-- The files do not become more by the cleanup.
abbrev Within : ℕ → Queue → Type 0
Within n q = Consistent q × (length q.entries ≤ n)

Within-Stable : (n : ℕ) → Stable (Within n)
Within-Stable n = record {
  consistent = λ q w. w.0;
  dropped = λ why f q w found image. (
    Consistent-Stable.dropped why f q w.0 found image,
    omega (arith, length-remove f.name q.entries f found, w.1),
  );
  recalculated = λ q w.
      (Consistent-Stable.recalculated q w.0, unfold recalculate_oldest in ground (arith, w.1));
  updated =
      λ q w. (Consistent-Stable.updated q w.0, unfold update_health_level in ground (arith, w.1));
}

make_space-Within :
    (size : ℕ) (q : Queue) → Consistent q → Within (length q.entries) (make_space size q)
unfolding make_space
make_space-Within size q c = elim (Bool-cases (has_space_for_image size q)) [
  | inl space ↦ rw space (c, omega arith)
  | inr full ↦ rw full (
      emergency_thin_for_space-Stable (Within (length q.entries)) (Within-Stable (length q.entries))
        size q (c, omega arith))
]

-- os.Stat fails for a file in the directory of a queue, with another error than that there is none.
abbrev pub StatFails : Queue → Type 0
StatFails q = ¬ ((name : Bytes) → q.environment.stat_fails q.entries name ≡ false)

-- After an image was accepted it is in the directory, under a name whose time is at most `n`
-- milliseconds later than its own; and the search for that name goes on for longer only if os.Stat
-- fails.
abbrev pub Accepted : ℕ → ℕ → ℕ → EnqueueResult × Queue → Type 0
Accepted size s n (enqueued thin, q) =
    (k : ℕ) × (k ≤ n)
    × (let name = file_name (pos ((s + k * millisecond) / millisecond)) in
        find name q.entries ≡ some (regular_file name size))
Accepted size s n (refused e, q) = Unit
Accepted size s n (out_of_fuel, q) = StatFails q

-- The counters are right after `Enqueue`, and what it accepted is stored.
abbrev pub Done : ℕ → ℕ → ℕ → EnqueueResult × Queue → Type 0
Done size s n r = Consistent r.1 × Accepted size s n r

entries-update_health_level : (q : Queue) → (update_health_level q).entries ≡ q.entries
unfolding update_health_level
entries-update_health_level q = ground arith

finish-Accepted :
    (size s n k : ℕ) (t : GoTime) (w : WriteResult × Queue)
    → k ≤ n
    → WriteLeaves (file_name (pos ((s + k * millisecond) / millisecond))) size w
    → Accepted size s n (finish size t w)
unfolding finish count_image
finish-Accepted size s n k t (written, q) le stored =
    (k, le, rw (entries-update_health_level (count_image size t q)) stored.listed)
finish-Accepted size s n k t (not_written, q) le c = tt
finish-Accepted size s n k t (write_error e, q) le c = tt

store_image-Done :
    (size s n : ℕ) (q : Queue)
    → s + suc (length q.entries) * millisecond < 2 ^ 63 * millisecond
    → length q.entries ≤ n
    → Consistent q
    → Done size s n (
        store_image size
          (free_name
            (suc (length q.entries))
            (q.environment.stat_fails q.entries)
            (pos s)
            q.entries)
          q)
unfolding store_image unix_milli
store_image-Done size s n q h le c =
    let fails = q.environment.stat_fails q.entries in
    elim (free_name_found (suc (length q.entries)) s fails q.entries) [
      | inl goes_on ↦ rw goes_on (
        c,
        λ works.
            let (k, below, found, absent) =
              free_name_total (suc (length q.entries)) s fails q.entries works h (omega arith) in
            cc,
      )
      | inr (k, below, found, absent) ↦
          let m = (s + k * millisecond) / millisecond in
          let image = is_image-file_name m size (omega arith) in
          let leaves = write_image-WriteLeaves (file_name (pos m)) size q image (c, absent) in
          rw found (
            finish-Consistent (file_name (pos m)) size _ _ leaves,
            finish-Accepted size s n k _ _ (omega arith) leaves,
          )
    ]

-- Enqueue of an image whose time is from 1970 on and in the range of a file name keeps the counters
-- right, whatever the checks, the disk and the cleanups do. An image that it accepts is in the
-- directory, with its size, under the name of its time or of a later one, by at most as many
-- milliseconds as the directory had files; and its search for a free name takes at most one round more
-- than there are files, unless os.Stat fails in the directory with another error than that there is no
-- such file.
pub enqueue-Done :
    (now : GoTime) (size s : ℕ) (q : Queue)
    → s + suc (length q.entries) * millisecond < 2 ^ 63 * millisecond
    → Consistent q
    → Done size s (length q.entries) (enqueue now size (pos s) q)
unfolding enqueue
enqueue-Done now size s q h c = elim (Option-cases (check_image now size (pos s) q)) [
  | inl fine ↦
      let (c', fewer) = make_space-Within size q c in
      rw (fine, enqueue)
        (store_image-Done size s (length q.entries) (make_space size q) (omega (arith, fewer)) fewer
          c')
  | inr (e, bad) ↦ rw (bad, enqueue) (c, tt)
]
