-- ===== src/Uploads/Sending.antt =====
-- The set of files in flight against the tasks, internal/scheduler/upload.go: the steps of the
-- coordinator.
use aviationwx_org_bridge.Prelude.{
  ℕ, ◌*◌, ◌≡◌, inl, inr, List, [], ◌∷◌, arith, Bool-cases, length, length-append, ltb→lt, ltb, ap,
}
use aviationwx_org_bridge.Files.Bytes.{Bytes, bytes_eq}
use aviationwx_org_bridge.Files.Maps.{
  occurrences, contains_key, occurrences-delete, occurrences_absent,
}
use aviationwx_org_bridge.Uploads.Types.{
  UploadWorker, UploadTask, file_path, Coordinator, holding, marked, withdrawing,
}
use aviationwx_org_bridge.Uploads.Scheduling.{offer, send, withdraw}
use aviationwx_org_bridge.Uploads.View.{View, view}
use aviationwx_org_bridge.Uploads.Counting.{occurrences-sent_paths, one_if}
use aviationwx_org_bridge.Uploads.Tracking.{Tracked, marked_paths}

pub offer-Tracked :
    (t : UploadTask) (ids : List Bytes) (slots : ℕ) (w : UploadWorker)
    → w.coordinator ≡ holding t ids slots
    → Tracked (view w)
    → Tracked (view (offer t ids slots w))
unfolding offer occurrences
offer-Tracked t ids slots w at k =
    let free : (p : Bytes) → occurrences p (marked_paths w.coordinator) ≡ 0 =
      λ p. ap (λ c. occurrences p (marked_paths c)) at in
    elim (Bool-cases (contains_key (file_path t) w.in_flight)) [
      | inl known ↦ rw known (record {
        once = λ p. omega (arith, k.once p, free p);
        single = k.single;
        active = k.active;
        free = k.free;
        room = k.room;
      })
      | inr new ↦ rw new (record {
        once = λ p. ground (arith, k.once p, free p);
        single =
            λ p. ground (arith, k.single p, occurrences_absent p (file_path t) w.in_flight new);
        active = k.active;
        free = k.free;
        room = k.room;
      })
    ]

-- The file of a marked task counts once.
marked_one :
    (p : Bytes) (t : UploadTask) (c : Coordinator)
    → marked_paths c ≡ file_path t ∷ []
    → occurrences p (marked_paths c) ≡ one_if (bytes_eq p (file_path t))
unfolding occurrences
marked_one p t c e = rw e (ground arith)

pub send-Tracked :
    (t : UploadTask) (ids : List Bytes) (slots : ℕ) (w : UploadWorker)
    → w.coordinator ≡ marked t ids slots
    → Tracked (view w)
    → Tracked (view (send t ids slots w))
unfolding send occurrences
send-Tracked t ids slots w at k =
    let one = λ (p : Bytes). marked_one p t w.coordinator (ap marked_paths at) in
    elim (Bool-cases (ltb (length w.channel) (w.max_concurrent * 2))) [
      | inl has_room ↦ rw has_room (record {
        once = λ p. omega (arith, k.once p, one p, occurrences-sent_paths p w.channel t);
        single = k.single;
        active = k.active;
        free = k.free;
        room = omega (arith, length-append w.channel (t ∷ []), ltb→lt _ _ has_room);
      })
      | inr full ↦ rw full (record {
        once = λ p. ground (arith, k.once p, one p);
        single = k.single;
        active = k.active;
        free = k.free;
        room = k.room;
      })
    ]

pub withdraw-Tracked :
    (t : UploadTask) (ids : List Bytes) (slots : ℕ) (w : UploadWorker)
    → w.coordinator ≡ withdrawing t ids slots
    → Tracked (view w)
    → Tracked (view (withdraw t ids slots w))
unfolding withdraw occurrences
withdraw-Tracked t ids slots w at k =
    let one = λ (p : Bytes). marked_one p t w.coordinator (ap marked_paths at) in
    record {
      once = λ p.
          ground
            (arith, k.once p, k.single p, one p, occurrences-delete p (file_path t) w.in_flight);
      single = λ p. ground (arith, k.single p, occurrences-delete p (file_path t) w.in_flight);
      active = k.active;
      free = k.free;
      room = k.room;
    }

-- Another place of the coordinator with the same marked file.
pub moved-Tracked :
    (v : View) (c : Coordinator)
    → marked_paths c ≡ marked_paths v.coordinator
    → Tracked v
    → Tracked (record v { coordinator = c })
moved-Tracked v c e k = record {
  once = λ p. omega (arith, k.once p, ap (occurrences p) e);
  single = k.single;
  active = k.active;
  free = k.free;
  room = k.room;
}
