-- ===== src/Bridge/Paired.antt =====
-- The queues of internal/scheduler/orchestrator.go: a camera has a queue with the manager, a capture worker
-- and a place with the upload worker, or none of them.
use aviationwx_org_bridge.Prelude.{
  All, ◌≡◌, refl, sym, ap, ◌∙◌, inl, inr, true, false, Bool-cases, List, [], ◌∷◌, ◌++◌, Option,
  none, some, if◌then◌else◌, Option-cases,
}
use aviationwx_org_bridge.Prelude.Clock.{GoTime}
use aviationwx_org_bridge.Files.Bytes.{Bytes, bytes_eq}
use aviationwx_org_bridge.Files.Maps.{lookup, insert, lookup-insert_self, occurrences}
use aviationwx_org_bridge.Queue.Types.{Queue, default_queue_config}
use aviationwx_org_bridge.Queue.Listing.{is_some}
use aviationwx_org_bridge.Queue.Dequeue.{Answer, answer, failure, new_queue}
use aviationwx_org_bridge.Queue.Manager.{Manager, create_queue, insert_new}
use aviationwx_org_bridge.Time.Authority.{Authority}
use aviationwx_org_bridge.Uploads.Types.{add_queue}
use aviationwx_org_bridge.Bridge.Orchestrator.{
  Orchestrator, CaptureSlot, UploadSlot, Addition, upload_slot, attach, attach_created, add_camera,
  remove_camera, with_authority, set_time_authority, Phase, running, all_in, upload_in, start_all,
}
use aviationwx_org_bridge.Config.Types.{Camera}
use aviationwx_org_bridge.Config.Store.{Json}
use aviationwx_org_bridge.Config.Service.{Service, list_cameras}
use aviationwx_org_bridge.Bridge.Events.{World, Bridge, NonNegative, new_authority, then_handle}
use aviationwx_org_bridge.Bridge.Start.{start_bridge, start_cameras, started_with}
use aviationwx_org_bridge.Bridge.Kept.{
  Moment, handle_all, Holds, HoldsAfter, map_orchestrator-Holds, then_handle-Holds,
  add_cameras-Holds, handle_all-Holds,
}
use aviationwx_org_bridge.Bridge.Keys.{
  has, uploading_queues, turns_of, count, has-insert, has-erase, uploading_queues-slot,
  turns_of-slot, occurrences_last, has-forget_queue, has-uploading_queues, turns_of-remove,
}

pub record Paired (o : Orchestrator) : Type 0 where
  pub captures : (id : Bytes) → has id o.capture_workers ≡ has id o.manager.queues
  pub uploads : (id : Bytes) → has id (uploading_queues o.upload_worker) ≡ has id o.manager.queues
  pub turns :
      (id : Bytes) → occurrences id (turns_of o.upload_worker) ≡ count (has id o.manager.queues)

attach-Paired :
    (now : GoTime) (x : Addition) (q : Queue) (m : Manager) (o : Orchestrator)
    → Paired o
    → has x.id o.manager.queues ≡ false
    → m.queues ≡ insert x.id q o.manager.queues
    → Paired (attach now x q m o)
unfolding attach add_queue
attach-Paired now x q m o p new h = record {
  captures = λ id.
      has-insert id x.id _ o.capture_workers
      ∙ ap (λ b. if bytes_eq id x.id then true else b) (p.captures id)
      ∙ sym (ap (has id) h ∙ has-insert id x.id q o.manager.queues);
  uploads = λ id.
      has-insert id x.id _ (upload_slot now q o).worker.queues
      ∙ ap (λ b. if bytes_eq id x.id then true else b)
          (ap (has id) (uploading_queues-slot now q o) ∙ p.uploads id)
      ∙ sym (ap (has id) h ∙ has-insert id x.id q o.manager.queues);
  turns = λ id.
      ap (λ xs. occurrences id (xs ++ x.id ∷ [])) (turns_of-slot now q o)
      ∙ occurrences_last id x.id (turns_of o.upload_worker) q o.manager.queues new (p.turns id)
      ∙ sym (ap (λ qs. count (has id qs)) h);
}

created-Paired :
    (now : GoTime) (x : Addition) (a : Answer Queue) (o : Orchestrator)
    → Paired o
    → has x.id o.manager.queues ≡ false
    → Paired
        (attach_created now x
          (insert_new x.id a o.manager).0
          (lookup x.id (insert_new x.id a o.manager).1.queues)
          (insert_new x.id a o.manager).1
          o).1
unfolding insert_new
created-Paired now x (failure e) o p new = p
created-Paired now x (answer q) o p new =
    rw (lookup-insert_self x.id q o.manager.queues) (attach-Paired now x q _ o p new refl)

add_camera-Paired :
    (now : GoTime) (x : Addition) (o : Orchestrator) → Paired o → Paired (add_camera now x o).1
unfolding add_camera create_queue
add_camera-Paired now x o p = elim (Option-cases (lookup x.id o.manager.queues)) [
  | inl h ↦
      rw (h, create_queue)
        (created-Paired now x (new_queue default_queue_config x.environment x.files) o p
          (ap is_some h))
  | inr (q, h) ↦ rw (h, create_queue) p
]

remove_camera-Paired : (id : Bytes) (o : Orchestrator) → Paired o → Paired (remove_camera id o).1
unfolding remove_camera
remove_camera-Paired id o p = record {
  captures = λ j.
      has-erase j id o.capture_workers
      ∙ ap (λ b. if bytes_eq j id then false else b) (p.captures j)
      ∙ sym (has-forget_queue j id o.manager);
  uploads = λ j.
      has-uploading_queues j id o.upload_worker
      ∙ ap (λ b. if bytes_eq j id then false else b) (p.uploads j)
      ∙ sym (has-forget_queue j id o.manager);
  turns = λ j.
      turns_of-remove j id o.upload_worker (has j o.manager.queues) (p.turns j)
      ∙ sym (ap count (has-forget_queue j id o.manager));
}

has-with_authority :
    (id : Bytes) (a : Option Authority) (ss : List (Bytes × CaptureSlot))
    → has id (with_authority a ss) ≡ has id ss
unfolding with_authority lookup
has-with_authority id a [] = refl
has-with_authority id a ((j, s) ∷ ss) = elim (Bool-cases (bytes_eq id j)) [
  | inl h ↦ rw h refl
  | inr h ↦ rw h (has-with_authority id a ss)
]

set_time_authority-Paired :
    (a : Authority) (o : Orchestrator) → Paired o → Paired (set_time_authority (some a) o)
unfolding set_time_authority
set_time_authority-Paired a o p = record {
  captures = λ id. has-with_authority id (some a) o.capture_workers ∙ p.captures id;
  uploads = p.uploads;
  turns = p.turns;
}

all_in-has :
    (id : Bytes) (f : Phase) (ss : List (Bytes × CaptureSlot)) → has id (all_in f ss) ≡ has id ss
unfolding all_in lookup
all_in-has id f [] = refl
all_in-has id f ((j, s) ∷ ss) = elim (Bool-cases (bytes_eq id j)) [
  | inl h ↦ rw h refl
  | inr h ↦ rw h (all_in-has id f ss)
]

start_all-Paired : (now : GoTime) (o : Orchestrator) → Paired o → Paired (start_all now o)
unfolding start_all
start_all-Paired now o p = record {
  captures = λ id. all_in-has id running o.capture_workers ∙ p.captures id;
  uploads = uploading o.upload_worker p.uploads;
  turns = λ id. turning id o.upload_worker ∙ p.turns id;
}
  where
    turning :
        (id : Bytes) (u : Option UploadSlot)
        → occurrences id (turns_of (upload_in running u)) ≡ occurrences id (turns_of u)
    turning id none = refl
    turning id (some u) = refl

    uploading :
        (u : Option UploadSlot)
        → ((id : Bytes) → has id (uploading_queues u) ≡ has id o.manager.queues)
        → (id : Bytes) → has id (uploading_queues (upload_in running u)) ≡ has id o.manager.queues
    uploading none h = h
    uploading (some u) h = h

module _ (J : Json) where
  started_with-Paired :
      (w : World) (cs : List Camera) (b : Bridge)
      → Holds Paired b.orchestrator
      → HoldsAfter Paired (started_with J w cs b)
  started_with-Paired w [] b h = h
  started_with-Paired w (c ∷ cs) b h =
      map_orchestrator-Holds Paired (start_all w.now) b.orchestrator (start_all-Paired w.now) h

  start_cameras-Paired :
      (w : World) (s : Service J.Text) (m : Manager) (cs : List Camera)
      → m.queues ≡ []
      → HoldsAfter Paired (start_cameras J w s (some m) cs)
  unfolding start_cameras new_authority lookup occurrences
  start_cameras-Paired w s m cs empty =
      then_handle-Holds Paired add_camera-Paired remove_camera-Paired set_time_authority-Paired J _
        (started_with J w cs)
        (add_cameras-Holds Paired add_camera-Paired remove_camera-Paired set_time_authority-Paired J
          w cs _
          (record {
            captures = λ id. sym (ap (has id) empty);
            uploads = λ id. sym (ap (has id) empty);
            turns = λ id. sym (ap (λ qs. count (has id qs)) empty);
          }))
        (started_with-Paired w cs)

  -- From the start with a new manager on and after any events, if the interval of the time check is never
  -- negative, no handler dereferences an orchestrator that is not there, and each camera has a queue
  -- with the manager, a capture worker, a queue with the upload worker and exactly one place in the order of
  -- its turns, or none of the four.
  pub start_bridge-Paired :
      (w : World) (s : Service J.Text) (m : Manager) (ms : List (Moment J))
      → NonNegative s.global.sntp
      → All (λ x. NonNegative x.service.global.sntp) ms
      → m.queues ≡ []
      → HoldsAfter Paired (then_handle J (start_bridge J w s (some m)) (handle_all J ms))
  unfolding start_bridge
  start_bridge-Paired w s m ms checked always empty =
      then_handle-Holds Paired add_camera-Paired remove_camera-Paired set_time_authority-Paired J
        (start_bridge J w s (some m)) (handle_all J ms)
        (start_cameras-Paired w s m (list_cameras J s) empty)
        (handle_all-Holds Paired add_camera-Paired remove_camera-Paired set_time_authority-Paired J
          ms)
