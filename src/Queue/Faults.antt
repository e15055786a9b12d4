-- ===== src/Queue/Faults.antt =====
-- Two states that a queue of internal/queue/queue.go does not leave, or should not reach: a paused
-- queue with no images, and a queue that counts less than it holds.
use aviationwx_org_bridge.Prelude.{
  ℕ, suc, ◌≡◌, refl, Bool, true, false, List, [], ◌∷◌, none, arith, length, All, ap, ◌∙◌, subst,
  sym,
}
use aviationwx_org_bridge.Prelude.Int.{pos, ◌-ℤ◌, int_laws}
use aviationwx_org_bridge.Prelude.Clock.{GoTime}
use aviationwx_org_bridge.Files.Entry.{find}
use aviationwx_org_bridge.Files.Directory.{keep-remove_listed}
use aviationwx_org_bridge.Queue.Types.{Queue, QueuedImage, capture_paused, queue_empty}
use aviationwx_org_bridge.Queue.Disk.{os_remove_missing}
use aviationwx_org_bridge.Queue.Listing.{is_image, images, recalculate_oldest}
use aviationwx_org_bridge.Queue.Health.{update_health_level}
use aviationwx_org_bridge.Queue.Thinning.{emergency_thin}
use aviationwx_org_bridge.Queue.Enqueue.{enqueue, check_image, refused}
use aviationwx_org_bridge.Queue.Upload.{
  mark_uploaded, after_upload, uncount_uploaded, resume_capture,
}
use aviationwx_org_bridge.Queue.Dequeue.{dequeue, failure}
use aviationwx_org_bridge.Queue.Consistent.{Consistent}
use aviationwx_org_bridge.Queue.Stable.{
  Stable, Consistent-Stable, emergency_thin_locked-Stable, thin_queue-Stable,
  expire_old_images-Stable,
}
use aviationwx_org_bridge.Queue.Calls.{Call, enqueues, uploads, expires, thins_to, thins, step, run}

-- Capture is paused and the directory has no image.
pub record Stuck (q : Queue) : Type 0 where
  pub consistent : Consistent q
  pub paused : q.capture_paused ≡ true
  pub empty : images q.entries ≡ []

update_health_level_paused :
    (q : Queue) → q.capture_paused ≡ true → (update_health_level q).capture_paused ≡ true
unfolding update_health_level
update_health_level_paused q h = ground arith

-- Dropping images never resumes capture.
Paused-Stable : Stable (λ q. Consistent q × (q.capture_paused ≡ true))
Paused-Stable = record {
  consistent = λ q p. p.0;
  dropped = λ why f q p found image. (Consistent-Stable.dropped why f q p.0 found image, p.1);
  recalculated = λ q p.
      (Consistent-Stable.recalculated q p.0, unfold recalculate_oldest in ground (arith, p.1));
  updated = λ q p. (Consistent-Stable.updated q p.0, update_health_level_paused q p.1);
}

-- No upload is in progress.
abbrev pub is_upload : Call → Bool
is_upload (uploads img) = true
is_upload (enqueues now size t) = false
is_upload (expires now) = false
is_upload (thins_to r) = false
is_upload thins = false

Stuck-Stable : Stable Stuck
Stuck-Stable = record {
  consistent = λ q s. s.consistent;
  dropped = λ why f q s found image. absurd (
      omega (
        arith,
        keep-remove_listed is_image f.name q.entries f found image,
        ap (length {0}) s.empty,
      ));
  recalculated = λ q s. record {
    consistent = Consistent-Stable.recalculated q s.consistent;
    paused = unfold recalculate_oldest in ground (arith, s.paused);
    empty = unfold recalculate_oldest in ground (arith, s.empty);
  };
  updated = λ q s. record {
    consistent = Consistent-Stable.updated q s.consistent;
    paused = update_health_level_paused q s.paused;
    empty = unfold update_health_level in ground (arith, s.empty);
  };
}

enqueue_paused :
    (now : GoTime) (size : ℕ) (t : GoTime) (q : Queue)
    → q.capture_paused ≡ true
    → enqueue now size t q ≡ (refused capture_paused, q)
unfolding enqueue check_image
enqueue_paused now size t q h = ground arith

step-Stuck : (c : Call) (q : Queue) → is_upload c ≡ false → Stuck q → Stuck (step c q)
unfolding step
step-Stuck (enqueues now size t) q u s =
    subst Stuck (sym (ap (λ r. r.1) (enqueue_paused now size t q s.paused))) s
step-Stuck (uploads img) q u s = cc
step-Stuck (expires now) q u s = expire_old_images-Stable Stuck Stuck-Stable now q s
step-Stuck (thins_to r) q u s =
    unfold emergency_thin in emergency_thin_locked-Stable Stuck Stuck-Stable r q s
step-Stuck thins q u s = thin_queue-Stable Stuck Stuck-Stable q s

dequeue-Stuck : (q : Queue) → Stuck q → dequeue q ≡ failure queue_empty
unfolding dequeue
dequeue-Stuck q s = ground (arith, s.consistent.counted, ap (length {0}) s.empty)

run-Stuck :
    (cs : List Call) (q : Queue) → All (λ c. is_upload c ≡ false) cs → Stuck q → Stuck (run cs q)
unfolding run
run-Stuck [] q u s = s
run-Stuck (c ∷ cs) q u s = run-Stuck cs (step c q) u.1 (step-Stuck c q u.0 s)

-- A paused queue whose last image is gone stays so. Unless an upload that began before still ends,
-- no calls at all resume capture: every later image is refused, and there is none to upload.
pub paused_forever :
    (cs : List Call) (q : Queue) (now : GoTime) (size : ℕ) (t : GoTime)
    → All (λ c. is_upload c ≡ false) cs
    → Stuck q
    → (dequeue (run cs q) ≡ failure queue_empty)
      × (enqueue now size t (run cs q) ≡ (refused capture_paused, run cs q))
paused_forever cs q now size t u s =
    let s' = run-Stuck cs q u s in
    (dequeue-Stuck (run cs q) s', enqueue_paused now size t (run cs q) s'.paused)

-- The steps after the counting leave the count and the files alone.
abbrev Same : Queue → Queue → Type 0
Same p q = (p.image_count ≡ q.image_count) × (p.entries ≡ q.entries)

Same-recalculate : (q : Queue) → Same (recalculate_oldest q) q
unfolding recalculate_oldest
Same-recalculate q = ground arith

Same-update : (q : Queue) → Same (update_health_level q) q
unfolding update_health_level
Same-update q = ground arith

Same-resume : (q : Queue) → Same (resume_capture q) q
unfolding resume_capture
Same-resume q = ground arith

after_missing :
    (size n : ℕ) (q : Queue)
    → q.image_count ≡ pos (suc n)
    → ((after_upload size q).image_count ≡ pos n) × ((after_upload size q).entries ≡ q.entries)
unfolding after_upload uncount_uploaded
after_missing size n q h =
    let counted = uncount_uploaded size q in
    let a = Same-resume (update_health_level (recalculate_oldest counted)) in
    let b = Same-update (recalculate_oldest counted) in
    let c = Same-recalculate counted in
    let e : pos (suc n) -ℤ pos 1 ≡ pos n = omega int_laws in
    (a.0 ∙ b.0 ∙ c.0 ∙ rw (h, e) refl, a.1 ∙ b.1 ∙ c.1)

-- MarkUploaded of an image that was removed meanwhile counts it a second time: the queue then counts
-- one image less than its directory holds, and does not offer the last one.
pub mark_uploaded_missing :
    (img : QueuedImage) (q : Queue) (n : ℕ)
    → Consistent q
    → find img.filename q.entries ≡ none
    → length (images q.entries) ≡ suc n
    → let q' = (mark_uploaded img q).1 in
      (q'.image_count ≡ pos n)
      × (length (images q'.entries) ≡ suc n)
      × (n ≡ 0 → dequeue q' ≡ failure queue_empty)
unfolding mark_uploaded dequeue
mark_uploaded_missing img q n c missing len =
    let (less, same) = after_missing img.size_bytes n q (c.counted ∙ ap pos len) in
    rw (os_remove_missing img.filename q missing) (less, rw same len, λ z. ground (arith, less))
