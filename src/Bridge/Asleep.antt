-- ===== src/Bridge/Asleep.antt =====
-- A bridge that starts without cameras: cmd/bridge/main.go and internal/scheduler/orchestrator.go.
use aviationwx_org_bridge.Prelude.{
  ◌≡◌, refl, sym, ap, subst, true, List, [], ◌∷◌, Option, some, if◌then◌else◌, All,
}
use aviationwx_org_bridge.Prelude.Clock.{GoTime, is_zero}
use aviationwx_org_bridge.Files.Bytes.{Bytes}
use aviationwx_org_bridge.Files.Maps.{All-erase}
use aviationwx_org_bridge.Queue.Types.{Queue}
use aviationwx_org_bridge.Queue.Manager.{Manager}
use aviationwx_org_bridge.Time.Authority.{Authority}
use aviationwx_org_bridge.Config.Store.{Json}
use aviationwx_org_bridge.Config.Service.{Service, list_cameras}
use aviationwx_org_bridge.Bridge.Orchestrator.{
  Orchestrator, waiting, running, CaptureSlot, Addition, attach, remove_camera, with_authority,
  set_time_authority,
}
use aviationwx_org_bridge.Bridge.Events.{World, new_authority, then_handle}
use aviationwx_org_bridge.Bridge.Start.{start_bridge, start_cameras, add_cameras}
use aviationwx_org_bridge.Bridge.Kept.{
  Moment, handle_all, HoldsAfter, add_camera-Keeps, then_handle-Holds, handle_all-Holds,
}
use aviationwx_org_bridge.Bridge.Uploading.{NoUploads, attach-NoUploads, remove_camera-NoUploads}

-- No worker was ever started, and none starts when it is added.
pub record Asleep (o : Orchestrator) : Type 0 where
  pub not_started : is_zero o.start_time ≡ true
  pub captures : All (λ (e : Bytes × CaptureSlot). e.1.phase ≡ waiting) o.capture_workers
  pub uploads : NoUploads o

attach-Asleep :
    (now : GoTime) (x : Addition) (q : Queue) (m : Manager) (o : Orchestrator)
    → Asleep o
    → Asleep (attach now x q m o)
unfolding attach
attach-Asleep now x q m o a = record {
  not_started = a.not_started;
  captures = (
    ap (λ b. if b then waiting else running) a.not_started,
    All-erase (λ (e : Bytes × CaptureSlot). e.1.phase ≡ waiting) x.id o.capture_workers a.captures,
  );
  uploads = attach-NoUploads now x q m o a.uploads;
}

remove_camera-Asleep : (id : Bytes) (o : Orchestrator) → Asleep o → Asleep (remove_camera id o).1
unfolding remove_camera
remove_camera-Asleep id o a = record {
  not_started = a.not_started;
  captures =
      All-erase (λ (e : Bytes × CaptureSlot). e.1.phase ≡ waiting) id o.capture_workers a.captures;
  uploads = remove_camera-NoUploads id o a.uploads;
}

with_authority-waiting :
    (a : Option Authority) (ss : List (Bytes × CaptureSlot))
    → All (λ (e : Bytes × CaptureSlot). e.1.phase ≡ waiting) ss
    → All (λ (e : Bytes × CaptureSlot). e.1.phase ≡ waiting) (with_authority a ss)
unfolding with_authority
with_authority-waiting a [] h = tt
with_authority-waiting a ((id, s) ∷ ss) h = (h.0, with_authority-waiting a ss h.1)

set_time_authority-Asleep :
    (a : Authority) (o : Orchestrator) → Asleep o → Asleep (set_time_authority (some a) o)
unfolding set_time_authority
set_time_authority-Asleep a o h = record {
  not_started = h.not_started;
  captures = with_authority-waiting (some a) o.capture_workers h.captures;
  uploads = h.uploads;
}

module _ (J : Json) where
  start_cameras-Asleep :
      (w : World) (s : Service J.Text) (m : Manager)
      → HoldsAfter Asleep (start_cameras J w s (some m) [])
  unfolding start_cameras add_cameras new_authority
  start_cameras-Asleep w s m = record { not_started = refl; captures = tt; uploads = tt }

  -- A bridge that starts without cameras never captures and never uploads, whatever cameras are added
  -- later: after any events, which are all handled, no worker of the orchestrator has been started.
  pub start_bridge-handle_all :
      (w : World) (s : Service J.Text) (m : Manager) (ms : List (Moment J))
      → list_cameras J s ≡ []
      → HoldsAfter Asleep (then_handle J (start_bridge J w s (some m)) (handle_all J ms))
  unfolding start_bridge
  start_bridge-handle_all w s m ms empty =
      subst
        (λ cs.
          HoldsAfter Asleep (then_handle J (start_cameras J w s (some m) cs) (handle_all J ms)))
        (sym empty)
        (then_handle-Holds Asleep (add_camera-Keeps Asleep attach-Asleep) remove_camera-Asleep
          set_time_authority-Asleep J (start_cameras J w s (some m) []) (handle_all J ms)
          (start_cameras-Asleep w s m)
          (handle_all-Holds Asleep (add_camera-Keeps Asleep attach-Asleep) remove_camera-Asleep
            set_time_authority-Asleep J ms))
