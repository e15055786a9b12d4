-- ===== src/Bridge/Uploading.antt =====
-- A bridge whose cameras are all disabled when it starts: cmd/bridge/main.go and
-- internal/scheduler/orchestrator.go.
use aviationwx_org_bridge.Prelude.{
  ◌≡◌, refl, sym, ap, subst, ◌∙◌, false, List, [], ◌∷◌, Option, none, some, if◌then◌else◌, All,
}
use aviationwx_org_bridge.Prelude.Clock.{GoTime}
use aviationwx_org_bridge.Files.Bytes.{Bytes}
use aviationwx_org_bridge.Queue.Types.{Queue}
use aviationwx_org_bridge.Queue.Manager.{Manager}
use aviationwx_org_bridge.Time.Authority.{Authority}
use aviationwx_org_bridge.Uploads.Types.{remove_queue}
use aviationwx_org_bridge.Config.Types.{Camera}
use aviationwx_org_bridge.Config.Store.{Json}
use aviationwx_org_bridge.Config.Service.{Service, list_cameras}
use aviationwx_org_bridge.Bridge.Orchestrator.{
  Orchestrator, waiting, UploadSlot, Addition, upload_slot, attach, remove_camera,
  set_time_authority, start_all, upload_in, running,
}
use aviationwx_org_bridge.Bridge.Events.{
  World, Bridge, handled, bridge_add, new_authority, then_handle,
}
use aviationwx_org_bridge.Bridge.Start.{
  start_bridge, start_cameras, started_with, first_health, add_cameras,
}
use aviationwx_org_bridge.Bridge.Kept.{
  Moment, handle_all, HoldsAfter, add_camera-Keeps, then_handle-Holds, handle_all-Holds,
}

abbrev pub Waits : Option UploadSlot → Type 0
Waits none = Unit {0}
Waits (some u) = u.phase ≡ waiting

-- There is no upload worker, or it was never started.
abbrev pub NoUploads : Orchestrator → Type 0
NoUploads o = Waits o.upload_worker

pub attach-NoUploads :
    (now : GoTime) (x : Addition) (q : Queue) (m : Manager) (o : Orchestrator)
    → NoUploads o
    → NoUploads (attach now x q m o)
unfolding attach
attach-NoUploads now x q m o h = slot o.upload_worker h
  where
    slot :
        (u : Option UploadSlot)
        → Waits u
        → (upload_slot now q (record o { upload_worker = u })).phase ≡ waiting
    slot none w = refl
    slot (some u) w = w

pub remove_camera-NoUploads :
    (id : Bytes) (o : Orchestrator) → NoUploads o → NoUploads (remove_camera id o).1
unfolding remove_camera
remove_camera-NoUploads id o h = removed o.upload_worker h
  where
    removed :
        (u : Option UploadSlot)
        → Waits u
        → Waits (elim u [
          | none ↦ none
          | some u ↦ some (record u { worker = remove_queue id u.worker })
        ])
    removed none w = tt
    removed (some u) w = w

set_time_authority-NoUploads :
    (a : Authority) (o : Orchestrator) → NoUploads o → NoUploads (set_time_authority (some a) o)
unfolding set_time_authority
set_time_authority-NoUploads a o h = h

module _ (J : Json) where
  -- Disabled cameras are passed over.
  add_cameras_disabled :
      (w : World) (cs : List Camera) (b : Bridge)
      → All (λ (c : Camera). c.enabled ≡ false) cs
      → add_cameras J w cs b ≡ handled b
  unfolding add_cameras
  add_cameras_disabled w [] b h = refl
  add_cameras_disabled w (c ∷ cs) b h =
      ap (λ e. then_handle J (if e then bridge_add w c b else handled b) (add_cameras J w cs)) h.0
      ∙ add_cameras_disabled w cs b h.1

  -- A start without an upload worker starts none.
  started_with-NoUploads :
      (w : World) (ds : List Camera) (b : Bridge) (o : Orchestrator)
      → o.upload_worker ≡ none
      → HoldsAfter NoUploads (started_with J w ds (record b { orchestrator = some o }))
  unfolding start_all
  started_with-NoUploads w [] b o h = subst Waits (sym h) tt
  started_with-NoUploads w (d ∷ ds) b o h = subst (λ u. Waits (upload_in running u)) (sym h) tt

  start_cameras-NoUploads :
      (w : World) (s : Service J.Text) (m : Manager) (cs : List Camera)
      → All (λ (c : Camera). c.enabled ≡ false) cs
      → HoldsAfter NoUploads (start_cameras J w s (some m) cs)
  unfolding start_cameras new_authority
  start_cameras-NoUploads w s m cs off =
      subst (λ r. HoldsAfter NoUploads (then_handle J r (started_with J w cs)))
        (sym (add_cameras_disabled w cs _ off))
        (started_with-NoUploads w cs
          (record {
            orchestrator = none;
            time_health = first_health J s.global.sntp;
            worker_status = [];
            last_captures = [];
          })
          _ refl)

  -- A bridge whose cameras are all disabled when it starts never uploads, whatever cameras are enabled
  -- or added later: after any events, which are all handled, its upload worker has not been started.
  pub start_bridge_disabled :
      (w : World) (s : Service J.Text) (m : Manager) (ms : List (Moment J))
      → All (λ (c : Camera). c.enabled ≡ false) (list_cameras J s)
      → HoldsAfter NoUploads (then_handle J (start_bridge J w s (some m)) (handle_all J ms))
  unfolding start_bridge
  start_bridge_disabled w s m ms off =
      then_handle-Holds NoUploads (add_camera-Keeps NoUploads attach-NoUploads)
        remove_camera-NoUploads set_time_authority-NoUploads J (start_bridge J w s (some m))
        (handle_all J ms) (start_cameras-NoUploads w s m (list_cameras J s) off)
        (handle_all-Holds NoUploads (add_camera-Keeps NoUploads attach-NoUploads)
          remove_camera-NoUploads set_time_authority-NoUploads J ms)
