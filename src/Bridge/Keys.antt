-- ===== src/Bridge/Keys.antt =====
-- What the queues of a camera are found under, in internal/scheduler/orchestrator.go: the keys of the maps
-- of the manager and of the upload worker, and the order of its turns.
use aviationwx_org_bridge.Prelude.{
  ◌≡◌, refl, sym, ap, subst, ◌∙◌, inl, inr, ℕ, ◌-◌, Bool, true, false, Bool-cases, List, [], ◌∷◌,
  ◌++◌, Option, none, some, if◌then◌else◌, Option-cases, arith,
}
use aviationwx_org_bridge.Prelude.Clock.{GoTime}
use aviationwx_org_bridge.Files.Bytes.{Bytes, bytes_eq, bytes_eq_iff, bytes_eq_sym}
use aviationwx_org_bridge.Files.Maps.{
  lookup, insert, erase, lookup-insert, lookup-erase, occurrences, occurrences-append,
}
use aviationwx_org_bridge.Queue.Types.{Queue}
use aviationwx_org_bridge.Queue.Listing.{is_some}
use aviationwx_org_bridge.Queue.Manager.{Manager, forget_queue}
use aviationwx_org_bridge.Uploads.Types.{new_upload_worker, remove_first, remove_queue}
use aviationwx_org_bridge.Bridge.Orchestrator.{Orchestrator, UploadSlot, upload_slot}

-- The cameras of the upload worker.
abbrev pub uploading_queues : Option UploadSlot → List (Bytes × ℕ)
uploading_queues none = []
uploading_queues (some u) = u.worker.queues

abbrev pub has {ℓ} : {A : Type ℓ} → Bytes → List (Bytes × A) → Bool
has id m = is_some (lookup id m)

-- The cameras in the order of their turns.
abbrev pub turns_of : Option UploadSlot → List Bytes
turns_of none = []
turns_of (some u) = u.worker.queue_order

abbrev pub count : Bool → ℕ
count b = if b then 1 else 0

module _ {ℓ} {A : Type ℓ} where
  pub has-insert :
      (j k : Bytes) (v : A) (m : List (Bytes × A))
      → has j (insert k v m) ≡ (if bytes_eq j k then true else has j m)
  has-insert j k v m = elim (Bool-cases (bytes_eq j k)) [
    | inl same ↦ rw (lookup-insert j k v m, same) refl
    | inr other ↦ rw (lookup-insert j k v m, other) refl
  ]

  pub has-erase :
      (j k : Bytes) (m : List (Bytes × A))
      → has j (erase k m) ≡ (if bytes_eq j k then false else has j m)
  has-erase j k m = elim (Bool-cases (bytes_eq j k)) [
    | inl same ↦ rw (lookup-erase j k m, same) refl
    | inr other ↦ rw (lookup-erase j k m, other) refl
  ]

pub uploading_queues-slot :
    (now : GoTime) (q : Queue) (o : Orchestrator)
    → (upload_slot now q o).worker.queues ≡ uploading_queues o.upload_worker
unfolding new_upload_worker
uploading_queues-slot now q o = at_slot o.upload_worker
  where
    at_slot :
        (u : Option UploadSlot)
        → (upload_slot now q (record o { upload_worker = u })).worker.queues ≡ uploading_queues u
    at_slot none = refl
    at_slot (some u) = refl

pub turns_of-slot :
    (now : GoTime) (q : Queue) (o : Orchestrator)
    → (upload_slot now q o).worker.queue_order ≡ turns_of o.upload_worker
unfolding new_upload_worker
turns_of-slot now q o = at_slot o.upload_worker
  where
    at_slot :
        (u : Option UploadSlot)
        → (upload_slot now q (record o { upload_worker = u })).worker.queue_order ≡ turns_of u
    at_slot none = refl
    at_slot (some u) = refl

-- A new camera gets its turn at the end.
pub occurrences_last :
    {A : Type 0} (j id : Bytes) (xs : List Bytes) (v : A) (m : List (Bytes × A))
    → has id m ≡ false
    → occurrences j xs ≡ count (has j m)
    → occurrences j (xs ++ id ∷ []) ≡ count (has j (insert id v m))
unfolding occurrences
occurrences_last j id xs v m new h = elim (Bool-cases (bytes_eq j id)) [
  | inr other ↦ rw (occurrences-append j xs (id ∷ []), has-insert j id v m, other, h) (omega arith)
  | inl same ↦
      let none_yet : occurrences j xs ≡ 0 =
        h ∙ ap count (subst (λ x. has x m ≡ false) (sym ((bytes_eq_iff j id).0 same)) new) in
      rw (occurrences-append j xs (id ∷ []), has-insert j id v m, same, none_yet) refl
]

pub has-forget_queue :
    (j id : Bytes) (m : Manager)
    → has j (forget_queue id m).1.queues ≡ (if bytes_eq j id then false else has j m.queues)
unfolding forget_queue
has-forget_queue j id m = elim (Option-cases (lookup id m.queues)) [
  | inr (q, h) ↦ rw (h, forget_queue) (has-erase j id m.queues)
  | inl h ↦
      rw (h, forget_queue)
        (elim (Bool-cases (bytes_eq j id)) [
          | inl same ↦
              rw same
                (subst (λ x. has x m.queues ≡ false) (sym ((bytes_eq_iff j id).0 same)) (rw h refl))
          | inr other ↦ rw other refl
        ])
]

pub has-uploading_queues :
    (j id : Bytes) (u : Option UploadSlot)
    → has j (
        uploading_queues
          (elim u [ none ↦ none | some u ↦ some (record u { worker = remove_queue id u.worker }) ]))
      ≡ (if bytes_eq j id then false else has j (uploading_queues u))
unfolding remove_queue lookup
has-uploading_queues j id none = ground arith
has-uploading_queues j id (some u) = has-erase j id u.worker.queues

occurrences-remove_first :
    (j id : Bytes) (xs : List Bytes)
    → occurrences j (remove_first id xs) ≡ occurrences j xs - count (bytes_eq j id)
unfolding occurrences remove_first
occurrences-remove_first j id [] = ground arith
occurrences-remove_first j id (x ∷ xs) = elim (Bool-cases (bytes_eq x id)) [
  | inl same ↦
      let e : bytes_eq j x ≡ bytes_eq j id = ap (bytes_eq j) ((bytes_eq_iff x id).0 same) in
      rw (same, e) (ground arith)
  | inr other ↦ elim (Bool-cases (bytes_eq j id)) [
    | inr ne ↦ rw (other, ne) (ground (arith, occurrences-remove_first j id xs))
    | inl eq ↦
        let e : bytes_eq j x ≡ false =
          bytes_eq_sym x j (ap (bytes_eq x) ((bytes_eq_iff j id).0 eq) ∙ other) in
        rw (other, e) (occurrences-remove_first j id xs)
  ]
]

pub turns_of-remove :
    (j id : Bytes) (u : Option UploadSlot) (b : Bool)
    → occurrences j (turns_of u) ≡ count b
    → occurrences j (
        turns_of
          (elim u [ none ↦ none | some u ↦ some (record u { worker = remove_queue id u.worker }) ]))
      ≡ count (if bytes_eq j id then false else b)
unfolding remove_queue occurrences
turns_of-remove j id none b h = ground arith
turns_of-remove j id (some u) b h =
    occurrences-remove_first j id u.worker.queue_order ∙ ground arith
