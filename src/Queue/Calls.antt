-- ===== src/Queue/Calls.antt =====
-- The calls that change a queue, internal/queue/queue.go, and the counters after any of them.
use aviationwx_org_bridge.Prelude.{
  ℕ, suc, ◌+◌, ◌*◌, ◌^◌, ◌<◌, ◌≡◌, inl, inr, true, List, [], ◌∷◌, some, arith, length,
}
use aviationwx_org_bridge.Prelude.Int.{ℤ, pos, ◌-ℤ◌, pos-sub}
use aviationwx_org_bridge.Prelude.Ratio.{Ratio}
use aviationwx_org_bridge.Prelude.Clock.{GoTime, millisecond}
use aviationwx_org_bridge.Files.Entry.{Entry, find, remove}
use aviationwx_org_bridge.Files.Directory.{keep-remove_listed, Distinct-remove}
use aviationwx_org_bridge.Queue.Types.{Queue, QueuedImage}
use aviationwx_org_bridge.Queue.Disk.{os_remove_found}
use aviationwx_org_bridge.Queue.Listing.{is_image}
use aviationwx_org_bridge.Queue.Thinning.{emergency_thin, thin_queue, expire_old_images}
use aviationwx_org_bridge.Queue.Enqueue.{enqueue}
use aviationwx_org_bridge.Queue.Upload.{
  mark_uploaded, uncount_uploaded, resume_capture, at_least_zero,
}
use aviationwx_org_bridge.Queue.Consistent.{
  Consistent, recalculate_oldest-Consistent, update_health_level-Consistent,
}
use aviationwx_org_bridge.Queue.Stable.{
  Consistent-Stable, emergency_thin_locked-Stable, thin_queue-Stable, expire_old_images-Stable,
}
use aviationwx_org_bridge.Queue.Store.{enqueue-Done}

-- A call, with the time of the clock where it reads one.
pub data Call : Type 0 where
  enqueues : GoTime → ℕ → GoTime → Call
  uploads : QueuedImage → Call
  expires : GoTime → Call
  thins_to : Ratio → Call
  thins : Call

unfoldable pub step : Call → Queue → Queue
step (enqueues now size t) q = (enqueue now size t q).1
step (uploads img) q = (mark_uploaded img q).1
step (expires now) q = (expire_old_images now q).1
step (thins_to r) q = (emergency_thin r q).1
step thins q = thin_queue q

unfoldable pub run : List Call → Queue → Queue
run [] q = q
run (c ∷ cs) q = run cs (step c q)

-- What a caller owes: an observation time from 1970 on, in the range of a file name, and the upload
-- of an image that is in the directory, with its size.
abbrev pub Owed : Call → Queue → Type 0
Owed (enqueues now size (ℤ.pos s)) q =
    s + suc (length q.entries) * millisecond < 2 ^ 63 * millisecond
Owed (enqueues now size (ℤ.negsuc s)) q = ⊥
Owed (uploads img) q =
    (f : Entry) × (find img.filename q.entries ≡ some f)
    × (is_image f ≡ true)
    × (f.size ≡ img.size_bytes)
Owed (expires now) q = Unit
Owed (thins_to r) q = Unit
Owed thins q = Unit

resume_capture-Consistent : (q : Queue) → Consistent q → Consistent (resume_capture q)
unfolding resume_capture
resume_capture-Consistent q c = ground arith

at_least_zero-sub : (n k : ℕ) → at_least_zero (pos (n + k) -ℤ pos k) ≡ pos n
at_least_zero-sub n k = rw (pos-sub n k)

uploaded-Consistent :
    (img : QueuedImage) (f : Entry) (q : Queue)
    → find img.filename q.entries ≡ some f
    → is_image f ≡ true
    → f.size ≡ img.size_bytes
    → Consistent q
    → Consistent
        (uncount_uploaded img.size_bytes (record q { entries = remove img.filename q.entries }))
unfolding uncount_uploaded
uploaded-Consistent img f q h image size c =
    let (fewer, smaller) = keep-remove_listed is_image img.filename q.entries f h image in
    let smaller' = rw size at smaller in
    record {
      distinct = Distinct-remove img.filename q.entries c.distinct;
      counted = rw (c.counted, ← fewer) (at_least_zero-sub _ 1);
      sized = rw (c.sized, ← smaller') (at_least_zero-sub _ img.size_bytes);
    }

mark_uploaded-Consistent :
    (img : QueuedImage) (q : Queue)
    → Owed (uploads img) q
    → Consistent q
    → Consistent (mark_uploaded img q).1
unfolding mark_uploaded
mark_uploaded-Consistent img q (f, h, image, size) c = elim (os_remove_found img.filename q f h) [
  | inl failed ↦ rw failed c
  | inr gone ↦ rw gone (
      resume_capture-Consistent _ (
        update_health_level-Consistent _
          (recalculate_oldest-Consistent _ (uploaded-Consistent img f q h image size c))))
]

-- A call keeps the counters right, whatever fails on the way, if its caller gives what it owes: Enqueue
-- gets a time from 1970 on, in the range of a file name, and MarkUploaded an image that is in the
-- directory, with the size that it has there. Then the names of the files differ, ImageCount is the
-- number of the images in the directory and TotalSizeBytes their bytes.
pub step-Consistent : (c : Call) (q : Queue) → Owed c q → Consistent q → Consistent (step c q)
unfolding step
step-Consistent (enqueues now size (ℤ.pos s)) q o c = (enqueue-Done now size s q o c).0
step-Consistent (enqueues now size (ℤ.negsuc s)) q o c = absurd o
step-Consistent (uploads img) q o c = mark_uploaded-Consistent img q o c
step-Consistent (expires now) q o c = expire_old_images-Stable Consistent Consistent-Stable now q c
step-Consistent (thins_to r) q o c =
    unfold emergency_thin in emergency_thin_locked-Stable Consistent Consistent-Stable r q c
step-Consistent thins q o c = thin_queue-Stable Consistent Consistent-Stable q c
