-- ===== src/Bridge/Kept.antt =====
-- What every event of cmd/bridge/main.go keeps of the orchestrator, if each of its methods keeps it.
use aviationwx_org_bridge.Prelude.{true, false, List, [], ◌∷◌, Option, none, some, if◌then◌else◌}
use aviationwx_org_bridge.Prelude.Clock.{GoTime}
use aviationwx_org_bridge.Files.Bytes.{Bytes}
use aviationwx_org_bridge.Files.Maps.{lookup}
use aviationwx_org_bridge.Queue.Types.{Queue, default_queue_config}
use aviationwx_org_bridge.Queue.Manager.{
  Manager, ManagerResult, done, already_exists, not_found, not_created, create_queue,
}
use aviationwx_org_bridge.Time.Authority.{Authority}
use aviationwx_org_bridge.Config.Types.{
  Camera, Sntp, Upload, ConfigEvent, camera_added, camera_updated, camera_deleted, global_updated,
}
use aviationwx_org_bridge.Config.Store.{Json}
use aviationwx_org_bridge.Config.Service.{Service, get_camera}
use aviationwx_org_bridge.Bridge.Clients.{
  CameraClient, UploadConfig, create_camera, new_client_from_config,
}
use aviationwx_org_bridge.Bridge.Orchestrator.{
  Orchestrator, Addition, attach, attach_created, add_camera, remove_camera, set_time_authority,
}
use aviationwx_org_bridge.Bridge.Events.{
  World, Bridge, Handled, handled, panics, new_authority, use_authority, set_time_health,
  map_orchestrator, update_timezone, restart_sntp, sntp_health, addition, after_add, add_to,
  with_uploader, with_upload, with_camera, bridge_add, add_enabled, remove_worker, forget_status,
  or_add, handle_config_event, then_handle,
}
use aviationwx_org_bridge.Bridge.Start.{add_cameras}

-- A moment at which an event is handled, with the configuration of that time.
pub record Moment (J : Json) : Type 0 where
  pub world : World
  pub service : Service J.Text
  pub event : ConfigEvent

-- Events handled one after the other.
unfoldable pub handle_all : (J : Json) → List (Moment J) → Bridge → Handled
handle_all J [] b = handled b
handle_all J (m ∷ ms) b =
    then_handle J (handle_config_event J m.world m.service m.event b) (handle_all J ms)

-- There is an orchestrator with the property.
abbrev pub Holds : (Orchestrator → Type 0) → Option Orchestrator → Type 0
Holds P none = ⊥
Holds P (some o) = P o

-- The handler ended, and there is one.
abbrev pub HoldsAfter : (Orchestrator → Type 0) → Handled → Type 0
HoldsAfter P (handled b) = Holds P b.orchestrator
HoldsAfter P panics = ⊥

-- One handler after another.
pub then_handle-HoldsAfter :
    (P Q : Orchestrator → Type 0) (J : Json) (r : Handled) (next : Bridge → Handled)
    → HoldsAfter P r
    → ((b : Bridge) → Holds P b.orchestrator → HoldsAfter Q (next b))
    → HoldsAfter Q (then_handle J r next)
then_handle-HoldsAfter P Q J (handled b) next h k = k b h
then_handle-HoldsAfter P Q J panics next h k = elim h [ ]

pub map_orchestrator-Holds :
    (P : Orchestrator → Type 0) (f : Orchestrator → Orchestrator) (o : Option Orchestrator)
    → ((o : Orchestrator) → P o → P (f o))
    → Holds P o
    → Holds P (elim o [ none ↦ none | some o ↦ some (f o) ])
map_orchestrator-Holds P f none keeps h = h
map_orchestrator-Holds P f (some o) keeps h = keeps o h

module _ (P : Orchestrator → Type 0)
    (attaches : (now : GoTime) (x : Addition) (q : Queue) (m : Manager) (o : Orchestrator)
      → P o
      → P (attach now x q m o)) where
  attach_created-Keeps :
      (now : GoTime) (x : Addition) (r : ManagerResult) (q : Option Queue) (m : Manager)
      (o : Orchestrator)
      → P o
      → P (attach_created now x r q m o).1
  attach_created-Keeps now x done (some q) m o h = attaches now x q m o h
  attach_created-Keeps now x done none m o h = h
  attach_created-Keeps now x already_exists q m o h = h
  attach_created-Keeps now x not_found q m o h = h
  attach_created-Keeps now x (not_created e) q m o h = h

  -- What an addition keeps whatever the manager is.
  pub add_camera-Keeps :
      (now : GoTime) (x : Addition) (o : Orchestrator) → P o → P (add_camera now x o).1
  unfolding add_camera
  add_camera-Keeps now x o h =
      let (r, m) = create_queue x.id default_queue_config x.environment x.files o.manager in
      attach_created-Keeps now x r (lookup x.id m.queues) m o h

module _ (P : Orchestrator → Type 0)
    (adds : (now : GoTime) (x : Addition) (o : Orchestrator) → P o → P (add_camera now x o).1)
    (removes : (id : Bytes) (o : Orchestrator) → P o → P (remove_camera id o).1)
    (sets : (a : Authority) (o : Orchestrator) → P o → P (set_time_authority (some a) o)) where
  use_authority-Holds : (a : Option Authority) (o : Orchestrator) → P o → P (use_authority a o)
  use_authority-Holds none o h = h
  use_authority-Holds (some a) o h = sets a o h

  after_add-Holds :
      (w : World) (id : Bytes) (r : ManagerResult × Orchestrator) (b : Bridge)
      → P r.1
      → Holds P (after_add w id r b).orchestrator
  after_add-Holds w id (done, o) b h = h
  after_add-Holds w id (already_exists, o) b h = h
  after_add-Holds w id (not_found, o) b h = h
  after_add-Holds w id (not_created e, o) b h = h

  add_to-Holds :
      (w : World) (c : Camera) (o : Option Orchestrator) (b : Bridge)
      → Holds P o
      → HoldsAfter P (add_to w c o b)
  unfolding add_to
  add_to-Holds w c none b h = h
  add_to-Holds w c (some o) b h =
      after_add-Holds w c.id (add_camera w.now (addition w c o.addresses) o) b
        (adds w.now (addition w c o.addresses) o h)

  with_uploader-Holds :
      (w : World) (c : Camera) (u : Option UploadConfig) (b : Bridge)
      → Holds P b.orchestrator
      → HoldsAfter P (with_uploader w c u b)
  unfolding with_uploader
  with_uploader-Holds w c none b h = h
  with_uploader-Holds w c (some u) b h = add_to-Holds w c b.orchestrator b h

  with_upload-Holds :
      (w : World) (c : Camera) (u : Option Upload) (b : Bridge)
      → Holds P b.orchestrator
      → HoldsAfter P (with_upload w c u b)
  unfolding with_upload
  with_upload-Holds w c none b h = h
  with_upload-Holds w c (some u) b h = with_uploader-Holds w c (new_client_from_config u) b h

  with_camera-Holds :
      (w : World) (c : Camera) (k : Option CameraClient) (b : Bridge)
      → Holds P b.orchestrator
      → HoldsAfter P (with_camera w c k b)
  unfolding with_camera
  with_camera-Holds w c none b h = h
  with_camera-Holds w c (some k) b h = with_upload-Holds w c c.upload b h

  pub add_enabled-Holds :
      (w : World) (c : Camera) (b : Bridge)
      → Holds P b.orchestrator
      → HoldsAfter P (add_enabled w c b)
  unfolding bridge_add
  add_enabled-Holds w c b h =
      elim c.enabled as (λ e. HoldsAfter P (if e then bridge_add w c b else handled b)) [
        | true ↦ with_camera-Holds w c (create_camera c) b h
        | false ↦ h
      ]

  or_add-Holds :
      (w : World) (c : Option Camera) (prepare : Bridge → Bridge) (b : Bridge)
      → Holds P b.orchestrator
      → Holds P (prepare b).orchestrator
      → HoldsAfter P (or_add w c prepare b)
  or_add-Holds w none prepare b h k = h
  or_add-Holds w (some c) prepare b h k = add_enabled-Holds w c (prepare b) k

  remove_worker-Holds :
      (id : Bytes) (b : Bridge) → Holds P b.orchestrator → Holds P (remove_worker id b).orchestrator
  unfolding remove_worker
  remove_worker-Holds id b h =
      map_orchestrator-Holds P (λ o. (remove_camera id o).1) b.orchestrator (removes id) h

  restart_sntp-Holds :
      (w : World) (s : Option Sntp) (b : Bridge)
      → Holds P b.orchestrator
      → Holds P (restart_sntp w s b).orchestrator
  unfolding restart_sntp
  restart_sntp-Holds w none b h = h
  restart_sntp-Holds w (some s) b h =
      elim s.enabled
        as (λ e.
          Holds P
            (if e
              then map_orchestrator (set_time_health w (some (sntp_health s)))
                  (record b { time_health = some (sntp_health s) })
              else record b { time_health = none }).orchestrator) [
                | true ↦
                    map_orchestrator-Holds P (set_time_health w (some (sntp_health s)))
                      b.orchestrator
                      (λ o.
                        use_authority-Holds
                          (new_authority w (some (sntp_health s)) o.config.timezone) o)
                      h
                | false ↦ h
              ]

  module _ (J : Json) where
    pub handle_config_event-Holds :
        (m : Moment J) (b : Bridge)
        → Holds P b.orchestrator
        → HoldsAfter P (handle_config_event J m.world m.service m.event b)
    unfolding handle_config_event update_timezone
    handle_config_event-Holds m b h = go m.event
      where
        go : (e : ConfigEvent) → HoldsAfter P (handle_config_event J m.world m.service e b)
        go (camera_added id) = or_add-Holds m.world (get_camera J id m.service) (λ x. x) b h h
        go (camera_updated id) =
            or_add-Holds m.world (get_camera J id m.service)
              (λ x. forget_status id (remove_worker id x)) b h (remove_worker-Holds id b h)
        go (camera_deleted id) = remove_worker-Holds id b h
        go global_updated =
            restart_sntp-Holds m.world m.service.global.sntp
              (update_timezone m.world m.service.global.timezone b)
              (map_orchestrator-Holds P
                (use_authority (new_authority m.world b.time_health m.service.global.timezone))
                b.orchestrator
                (use_authority-Holds
                  (new_authority m.world b.time_health m.service.global.timezone))
                h)

    pub then_handle-Holds :
        (r : Handled) (next : Bridge → Handled)
        → HoldsAfter P r
        → ((b : Bridge) → Holds P b.orchestrator → HoldsAfter P (next b))
        → HoldsAfter P (then_handle J r next)
    then_handle-Holds = then_handle-HoldsAfter P P J

    pub add_cameras-Holds :
        (w : World) (cs : List Camera) (b : Bridge)
        → Holds P b.orchestrator
        → HoldsAfter P (add_cameras J w cs b)
    unfolding add_cameras
    add_cameras-Holds w [] b h = h
    add_cameras-Holds w (c ∷ cs) b h =
        then_handle-Holds (add_enabled w c b) (add_cameras J w cs) (add_enabled-Holds w c b h)
          (add_cameras-Holds w cs)

    -- Any events, in any order.
    pub handle_all-Holds :
        (ms : List (Moment J)) (b : Bridge)
        → Holds P b.orchestrator
        → HoldsAfter P (handle_all J ms b)
    unfolding handle_all
    handle_all-Holds [] b h = h
    handle_all-Holds (m ∷ ms) b h =
        then_handle-Holds (handle_config_event J m.world m.service m.event b) (handle_all J ms)
          (handle_config_event-Holds m b h) (handle_all-Holds ms)
