-- ===== src/Queue/Fleet.antt =====
-- What the manager of internal/queue/manager.go keeps of all queues.
use aviationwx_org_bridge.Prelude.{
  ℕ, ◌+◌, ◌≡◌, refl, inl, inr, false, List, [], ◌∷◌, none, some, All, Bool-cases, length, subst,
  sym,
}
use aviationwx_org_bridge.Prelude.Int.{pos, pos-add}
use aviationwx_org_bridge.Files.Bytes.{Bytes, bytes_eq, bytes_eq_refl, bytes_eq_iff}
use aviationwx_org_bridge.Files.Entry.{Entry, total_size}
use aviationwx_org_bridge.Files.Maps.{
  lookup, insert, erase, lookup-erase_self, lookup-erase_ne, lookup-insert_self, lookup-insert_ne,
}
use aviationwx_org_bridge.Queue.Types.{Queue, QueueConfig, Environment}
use aviationwx_org_bridge.Queue.Listing.{images}
use aviationwx_org_bridge.Queue.Consistent.{Consistent}
use aviationwx_org_bridge.Queue.Manager.{
  Manager, total_queue_size, total_image_count, create_queue, forget_queue, get_queue, insert_new,
  done,
}
use aviationwx_org_bridge.Queue.Dequeue.{answer, new_queue}

-- The counters of every queue are right.
abbrev pub AllConsistent : List (Bytes × Queue) → Type 0
AllConsistent = All (λ e. Consistent e.1)

-- What all directories hold.
unfoldable pub images_of : List (Bytes × Queue) → ℕ
images_of [] = 0
images_of ((id, q) ∷ qs) = length (images q.entries) + images_of qs

unfoldable pub bytes_of : List (Bytes × Queue) → ℕ
bytes_of [] = 0
bytes_of ((id, q) ∷ qs) = total_size (images q.entries) + bytes_of qs

-- While the counters of every queue are right, the totals of the manager are the number and the
-- bytes of the images in all directories.
pub total_image_count-images_of :
    (qs : List (Bytes × Queue))
    → AllConsistent qs
    → (total_image_count qs ≡ pos (images_of qs)) × (total_queue_size qs ≡ pos (bytes_of qs))
unfolding total_image_count total_queue_size images_of bytes_of
total_image_count-images_of [] c = (refl, refl)
total_image_count-images_of ((id, q) ∷ qs) c =
    let (count, size) = total_image_count-images_of qs c.1 in
    (
      rw (c.0.counted, count) (pos-add (length (images q.entries)) (images_of qs)),
      rw (c.0.sized, size) (pos-add (total_size (images q.entries)) (bytes_of qs)),
    )

create_queue-new :
    (id : Bytes) (c : QueueConfig) (env : Environment) (files : List Entry) (q : Queue)
    (m : Manager)
    → lookup id m.queues ≡ none
    → new_queue c env files ≡ answer q
    → create_queue id c env files m ≡ (done, record m { queues = insert id q m.queues })
unfolding create_queue
create_queue-new id c env files q m absent made =
    rw (create_queue, absent, made) (unfold insert_new in refl)

forget_queue-known :
    (id : Bytes) (q : Queue) (m : Manager)
    → lookup id m.queues ≡ some q
    → forget_queue id m ≡ (done, record m { queues = erase id m.queues })
unfolding forget_queue
forget_queue-known id q m known = rw (forget_queue, known) refl

lookup-erase-insert :
    (id : Bytes) (q : Queue) (qs : List (Bytes × Queue))
    → lookup id qs ≡ none
    → (j : Bytes) → lookup j (erase id (insert id q qs)) ≡ lookup j qs
unfolding erase
lookup-erase-insert id q qs absent j = rw (bytes_eq_refl id) (elim (Bool-cases (bytes_eq j id)) [
  | inr other ↦ rw (lookup-erase_ne j id (erase id qs) other) (lookup-erase_ne j id qs other)
  | inl same ↦
      subst (λ k. lookup k (erase id (erase id qs)) ≡ lookup k qs)
        (sym ((bytes_eq_iff j id).0 same)) (rw (lookup-erase_self id (erase id qs)) (sym absent))
])

-- A queue that was created can be found, and the other cameras keep theirs; after it is removed
-- again, every camera has what it had before.
pub create_queue-forget_queue :
    (id : Bytes) (c : QueueConfig) (env : Environment) (files : List Entry) (q : Queue)
    (m : Manager)
    → lookup id m.queues ≡ none
    → new_queue c env files ≡ answer q
    → let (made, m') = create_queue id c env files m in
      let (gone, m'') = forget_queue id m' in
      (made ≡ done)
      × (get_queue id m' ≡ some q)
      × ((j : Bytes) → bytes_eq j id ≡ false → get_queue j m' ≡ get_queue j m)
      × (gone ≡ done)
      × ((j : Bytes) → get_queue j m'' ≡ get_queue j m)
create_queue-forget_queue id c env files q m absent made =
    let known = lookup-insert_self id q m.queues in
    let added = record m { queues = insert id q m.queues } in
    rw (create_queue-new id c env files q m absent made, forget_queue-known id q added known)
      (
        refl,
        known,
        (λ j other. lookup-insert_ne j id q m.queues other),
        refl,
        lookup-erase-insert id q m.queues absent,
      )
