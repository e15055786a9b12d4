-- ===== src/Resource/Workers.antt =====
-- The jobs of the capture workers between the slots of the limiter: capture of
-- internal/scheduler/capture.go over internal/resource/limiter.go, as steps of the workers.
use aviationwx_org_bridge.Prelude.{
  ℕ, zero, suc, ◌+◌, ◌≡◌, Bool, true, false, List, [], ◌∷◌, ◌++◌, some,
}
use aviationwx_org_bridge.Resource.Limiter.{Limits, acquire, release}

-- Where a job is: not begun or over; at AcquireExifOperation; with the slot for exiftool, reading; at
-- AcquireImageProcessing; with the slot for an image, processing it; at the end, before the deferred
-- release. A flag tells whether the job holds the slot for exiftool, which it keeps to its end.
pub data Stage : Type 0 where
  idle at_exif reading : Stage
  at_image processing ending : Bool → Stage

-- The elements of the two channels, and how many of the first one are left from jobs that panicked.
pub record Slots : Type 0 where
  pub image_slots : ℕ
  pub exif_slots : ℕ
  pub leaked : ℕ

-- A step of one worker, and whether it is one that only a cancelled context allows or a panic makes. After a
-- panic while an image is processed, which `run` recovers, the slot for an image stays taken.
pub data Move (l : Limits) (u : Slots) : Bool → Stage → Slots → Stage → Type 0 where
  begin : Move l u false idle u at_exif
  begin_without_exif : Move l u false idle u (at_image false)
  begin_without_both : Move l u false idle u (ending false)
  take_exif :
      {n : ℕ}
      → acquire l.exif_operations u.exif_slots ≡ some n
      → Move l u false at_exif (record u { exif_slots = n }) reading
  give_up_exif : Move l u true at_exif u (at_image false)
  process_next : Move l u false reading u (at_image true)
  skip_processing : Move l u false reading u (ending true)
  take_image :
      {e : Bool} {n : ℕ}
      → acquire l.image_processing u.image_slots ≡ some n
      → Move l u false (at_image e) (record u { image_slots = n }) (processing e)
  give_up_image : {e : Bool} → Move l u true (at_image e) u (ending e)
  release_image :
      {e : Bool} {n : ℕ}
      → release u.image_slots ≡ some n
      → Move l u false (processing e) (record u { image_slots = n }) (ending e)
  panic_in_process :
      {e : Bool} → Move l u true (processing e) (record u { leaked = u.leaked + 1 }) (ending e)
  release_exif :
      {n : ℕ}
      → release u.exif_slots ≡ some n
      → Move l u false (ending true) (record u { exif_slots = n }) idle
  end_without_exif : Move l u false (ending false) u idle

pub record System : Type 0 where
  pub slots : Slots
  pub stages : List Stage

-- A step of one of the workers.
pub data WorkerStep (l : Limits) (s : System) : Bool → System → Type 0 where
  moves :
      (xs ys : List Stage) {a b : Stage} {c : Bool} {u : Slots}
      → s.stages ≡ xs ++ (a ∷ ys)
      → Move l s.slots c a u b
      → WorkerStep l s c (record { slots = u; stages = xs ++ (b ∷ ys) })

-- The workers of some cameras before any job, and what they can reach.
unfoldable pub idle_workers : ℕ → List Stage
idle_workers zero = []
idle_workers (suc n) = idle ∷ idle_workers n

pub data Reach (l : Limits) (cameras : ℕ) : System → Type 0 where
  at_rest : Reach l cameras (record {
    slots = record { image_slots = 0; exif_slots = 0; leaked = 0 };
    stages = idle_workers cameras;
  })
  later : {s t : System} {c : Bool} → Reach l cameras s → WorkerStep l s c t → Reach l cameras t
