-- ===== src/Queue/Writes.antt =====
-- What writeImageWithRetry of internal/queue/queue.go leaves in the directory, on every path.
use aviationwx_org_bridge.Prelude.{
  ℕ, ◌≡◌, refl, ap, ◌∙◌, ◌≢◌, inl, inr, true, ◌++◌, Option, none, some, arith, length, Option-cases,
  Bool-cases, length-append,
}
use aviationwx_org_bridge.Prelude.Int.{pos, ◌+ℤ◌, pos-add}
use aviationwx_org_bridge.Prelude.Ratio.{ratio}
use aviationwx_org_bridge.Files.Bytes.{Bytes, bytes_eq_iff, bytes_eq_refl}
use aviationwx_org_bridge.Files.Entry.{Entry, find, remove, put, Distinct, total_size}
use aviationwx_org_bridge.Files.Directory.{
  find-remove-none, keep-remove_unlisted, Distinct-put, Distinct-remove, keep-put_new,
}
use aviationwx_org_bridge.Queue.Types.{Queue, WriteFault, no_space, other_fault}
use aviationwx_org_bridge.Queue.Disk.{
  tmp, os_remove, os_write_file, os_remove_outcomes, regular_file, leave, after_fault,
}
use aviationwx_org_bridge.Queue.Listing.{images, is_image, recalculate_oldest}
use aviationwx_org_bridge.Queue.Health.{update_health_level}
use aviationwx_org_bridge.Queue.Enqueue.{
  WriteResult, written, not_written, write_error, finalize, second_attempt, first_attempt,
  write_image_with_retry,
}
use aviationwx_org_bridge.Queue.Consistent.{Consistent}
use aviationwx_org_bridge.Queue.Stable.{Stable, Consistent-Stable, emergency_thin_locked-Stable}
use aviationwx_org_bridge.Queue.Names.{is_image-tmp}

-- The counters are right, and the name is free.
abbrev pub Ready : Bytes → Queue → Type 0
Ready path q = Consistent q × (find path q.entries ≡ none)

-- The new file is there, and the counters do not have it yet.
pub record Stored (path : Bytes) (size : ℕ) (q : Queue) : Type 0 where
  pub listed : find path q.entries ≡ some (regular_file path size)
  pub distinct : Distinct q.entries
  pub counted : q.image_count +ℤ pos 1 ≡ pos (length (images q.entries))
  pub sized : q.total_size_bytes +ℤ pos size ≡ pos (total_size (images q.entries))

tmp_ne : (path : Bytes) → path ++ tmp ≢ path
tmp_ne path e = absurd (omega (arith, ap (length {0}) e, length-append path tmp))

Ready-put :
    (path : Bytes) (e : Entry) (q : Queue)
    → e.name ≡ path ++ tmp
    → Ready path q
    → Ready path (record q { entries = put e q.entries })
unfolding put
Ready-put path e q named (c, free) =
    let unlisted =
      keep-remove_unlisted is_image e.name q.entries (λ f s. is_image-tmp path f (s ∙ named)) in
    let hidden = is_image-tmp path e named in
    (
      record {
        distinct = unfold put in Distinct-put e q.entries c.distinct;
        counted = ground (arith, unlisted, hidden);
        sized = ground (arith, unlisted, hidden);
      },
      unfold find in
          ground (
            arith,
            bytes_eq_iff e.name path,
            tmp_ne path,
            find-remove-none path e.name q.entries free,
          ),
    )

Ready-remove :
    (path : Bytes) (q : Queue)
    → Ready path q
    → Ready path (record q { entries = remove (path ++ tmp) q.entries })
Ready-remove path q (c, free) =
    let unlisted =
      keep-remove_unlisted is_image (path ++ tmp) q.entries (λ f s. is_image-tmp path f s) in
    (
      record {
        distinct = Distinct-remove (path ++ tmp) q.entries c.distinct;
        counted = rw unlisted c.counted;
        sized = rw unlisted c.sized;
      },
      find-remove-none path (path ++ tmp) q.entries free,
    )

Ready-os_remove :
    (path : Bytes) (q : Queue) → Ready path q → Ready path (os_remove (path ++ tmp) q).1
Ready-os_remove path q r = elim (os_remove_outcomes (path ++ tmp) q) [
  | inl kept ↦ rw kept r
  | inr gone ↦ rw gone (Ready-remove path q r)
]

Ready-leave :
    (path : Bytes) (left : Option ℕ) (q : Queue)
    → Ready path q
    → Ready path (record q { entries = leave (path ++ tmp) left q.entries })
Ready-leave path none q r = r
Ready-leave path (some size) q r = Ready-put path (regular_file (path ++ tmp) size) q refl r

Ready-after_fault :
    (path : Bytes) (fault : WriteFault) (q : Queue)
    → Ready path q
    → Ready path (record q { entries = after_fault (path ++ tmp) fault q.entries })
Ready-after_fault path (no_space left) q r = Ready-leave path left q r
Ready-after_fault path (other_fault left) q r = Ready-leave path left q r

Ready-os_write_file :
    (path : Bytes) (size : ℕ) (q : Queue)
    → Ready path q
    → Ready path (os_write_file (path ++ tmp) size q).1
unfolding os_write_file
Ready-os_write_file path size q r =
    elim (Option-cases (q.environment.write_fault q.entries (path ++ tmp) size)) [
      | inl fine ↦
          rw (fine, os_write_file) (Ready-put path (regular_file (path ++ tmp) size) q refl r)
      | inr (fault, failed) ↦ rw (failed, os_write_file) (Ready-after_fault path fault q r)
    ]

Ready-Stable : (path : Bytes) → Stable (Ready path)
Ready-Stable path = record {
  consistent = λ q r. r.0;
  dropped = λ why f q r found image. (
    Consistent-Stable.dropped why f q r.0 found image,
    find-remove-none path f.name q.entries r.1,
  );
  recalculated = λ q r.
      (Consistent-Stable.recalculated q r.0, unfold recalculate_oldest in ground (arith, r.1));
  updated =
      λ q r. (Consistent-Stable.updated q r.0, unfold update_health_level in ground (arith, r.1));
}

-- What the write leaves: on success the new file, which the counters do not have yet.
abbrev pub WriteLeaves : Bytes → ℕ → WriteResult × Queue → Type 0
WriteLeaves path size (written, q) = Stored path size q
WriteLeaves path size (not_written, q) = Consistent q
WriteLeaves path size (write_error e, q) = Consistent q

Stored-rename :
    (path : Bytes) (size : ℕ) (q : Queue)
    → is_image (regular_file path size) ≡ true
    → Ready path q
    → Stored path size
        (record q { entries = put (regular_file path size) (remove (path ++ tmp) q.entries) })
Stored-rename path size q image r =
    let (c, free) = Ready-remove path q r in
    let (longer, larger) =
      keep-put_new is_image (regular_file path size) (remove (path ++ tmp) q.entries) free image in
    record {
      listed = unfold find put in rw (bytes_eq_refl path) refl;
      distinct = Distinct-put (regular_file path size) (remove (path ++ tmp) q.entries) c.distinct;
      counted = rw (c.counted, longer) (pos-add _ 1);
      sized = rw (c.sized, larger) (pos-add _ size);
    }

finalize-WriteLeaves :
    (path : Bytes) (size : ℕ) (q : Queue)
    → is_image (regular_file path size) ≡ true
    → Ready path q
    → WriteLeaves path size (finalize path size q)
unfolding finalize
finalize-WriteLeaves path size q image r =
    elim (Bool-cases (q.environment.rename_fails q.entries (path ++ tmp))) [
      | inl fails ↦ rw fails (Ready-os_remove path q r).0
      | inr works ↦ rw works (Stored-rename path size q image r)
    ]

second_attempt-WriteLeaves :
    (path : Bytes) (size : ℕ) (w : Option WriteFault × Queue)
    → is_image (regular_file path size) ≡ true
    → Ready path w.1
    → WriteLeaves path size (second_attempt path size w)
unfolding second_attempt
second_attempt-WriteLeaves path size (none, q) image r = finalize-WriteLeaves path size q image r
second_attempt-WriteLeaves path size (some (no_space left), q) image r = r.0
second_attempt-WriteLeaves path size (some (other_fault left), q) image r = r.0

first_attempt-WriteLeaves :
    (path : Bytes) (size : ℕ) (w : Option WriteFault × Queue)
    → is_image (regular_file path size) ≡ true
    → Ready path w.1
    → WriteLeaves path size (first_attempt path size w)
unfolding first_attempt
first_attempt-WriteLeaves path size (none, q) image r = finalize-WriteLeaves path size q image r
first_attempt-WriteLeaves path size (some (no_space left), q) image r =
    second_attempt-WriteLeaves path size _ image (
      Ready-os_write_file path size _ (
        emergency_thin_locked-Stable (Ready path) (Ready-Stable path) (ratio 3 10) _
          (Ready-os_remove path q r)))
first_attempt-WriteLeaves path size (some (other_fault left), q) image r = r.0

pub write_image-WriteLeaves :
    (path : Bytes) (size : ℕ) (q : Queue)
    → is_image (regular_file path size) ≡ true
    → Ready path q
    → WriteLeaves path size (write_image_with_retry path size q)
unfolding write_image_with_retry
write_image-WriteLeaves path size q image r =
    first_attempt-WriteLeaves path size _ image (Ready-os_write_file path size q r)
