-- ===== src/Bridge/Zones.antt =====
-- The time zone of the workers: updateTimezone and restartSNTP of cmd/bridge/main.go over SetTimeAuthority
-- and SetTimeHealth of internal/scheduler/orchestrator.go.
use aviationwx_org_bridge.Prelude.{
  ◌≡◌, refl, sym, subst, Bool, true, false, List, [], ◌∷◌, Option, none, some, if◌then◌else◌, All,
}
use aviationwx_org_bridge.Prelude.Clock.{GoTime}
use aviationwx_org_bridge.Files.Bytes.{Bytes}
use aviationwx_org_bridge.Queue.Types.{Queue}
use aviationwx_org_bridge.Queue.Manager.{Manager}
use aviationwx_org_bridge.Time.Authority.{Authority}
use aviationwx_org_bridge.Time.Health.{TimeHealth}
use aviationwx_org_bridge.Config.Types.{Camera, Sntp, global_updated}
use aviationwx_org_bridge.Config.Validator.{is_blank}
use aviationwx_org_bridge.Config.Store.{Json}
use aviationwx_org_bridge.Config.Service.{Service, list_cameras}
use aviationwx_org_bridge.Bridge.Orchestrator.{
  Orchestrator, CaptureSlot, Addition, attach, remove_camera, with_authority, set_time_authority,
  start_all,
}
use aviationwx_org_bridge.Bridge.Events.{
  World, Bridge, new_authority, use_authority, set_time_health, map_orchestrator, sntp_health,
  update_timezone, restart_sntp, handle_config_event, then_handle,
}
use aviationwx_org_bridge.Bridge.Start.{start_bridge, start_cameras, started_with}
use aviationwx_org_bridge.Bridge.Kept.{
  Moment, handle_all, Holds, HoldsAfter, add_camera-Keeps, map_orchestrator-Holds,
  then_handle-HoldsAfter, then_handle-Holds, add_cameras-Holds, handle_all-Holds,
}

-- An authority that reads local times as times of a zone.
abbrev pub ReadsIn : (GoTime → GoTime) → Option Authority → Type 0
ReadsIn z none = ⊥
ReadsIn z (some a) = a.to_utc ≡ z

-- The orchestrator and every capture worker have such an authority.
pub record InZone (z : GoTime → GoTime) (o : Orchestrator) : Type 0 where
  pub own : ReadsIn z o.authority
  pub workers : All (λ (e : Bytes × CaptureSlot). ReadsIn z e.1.worker.authority) o.capture_workers

-- The orchestrator was made without a zone.
abbrev pub Unzoned : Orchestrator → Type 0
Unzoned o = o.config.timezone ≡ []

attach-Unzoned :
    (now : GoTime) (x : Addition) (q : Queue) (m : Manager) (o : Orchestrator)
    → Unzoned o
    → Unzoned (attach now x q m o)
unfolding attach
attach-Unzoned now x q m o h = h

remove_camera-Unzoned : (id : Bytes) (o : Orchestrator) → Unzoned o → Unzoned (remove_camera id o).1
unfolding remove_camera
remove_camera-Unzoned id o h = h

set_time_authority-Unzoned :
    (a : Authority) (o : Orchestrator) → Unzoned o → Unzoned (set_time_authority (some a) o)
unfolding set_time_authority
set_time_authority-Unzoned a o h = h

with_authority-ReadsIn :
    (z : GoTime → GoTime) (a : Authority) (ss : List (Bytes × CaptureSlot))
    → a.to_utc ≡ z
    → All (λ (e : Bytes × CaptureSlot). ReadsIn z e.1.worker.authority) (with_authority (some a) ss)
unfolding with_authority
with_authority-ReadsIn z a [] h = tt
with_authority-ReadsIn z a ((id, s) ∷ ss) h = (h, with_authority-ReadsIn z a ss h)

set_time_authority-InZone :
    (z : GoTime → GoTime) (a : Authority) (o : Orchestrator)
    → a.to_utc ≡ z
    → InZone z (set_time_authority (some a) o)
unfolding set_time_authority
set_time_authority-InZone z a o h = record {
  own = h;
  workers = with_authority-ReadsIn z a o.capture_workers h;
}

-- A new time health takes the zone of the system.
set_time_health-InZone :
    (w : World) (th : Option TimeHealth) (o : Orchestrator)
    → Unzoned o
    → InZone w.local (set_time_health w th o)
unfolding new_authority
set_time_health-InZone w th o h =
    subst (λ t. InZone w.local (use_authority (new_authority w th t) o)) (sym h)
      (set_time_authority-InZone w.local _ o refl)

start_all-Unzoned : (now : GoTime) (o : Orchestrator) → Unzoned o → Unzoned (start_all now o)
unfolding start_all
start_all-Unzoned now o h = h

zoned :
    (w : World) (th : Option TimeHealth) (zone : Bytes) (z : GoTime → GoTime) (o : Orchestrator)
    → is_blank zone ≡ false
    → w.load_location zone ≡ some z
    → InZone z (use_authority (new_authority w th zone) o)
unfolding new_authority
zoned w th zone z o named h = rw (named, h) (set_time_authority-InZone z _ o refl)

abbrev pub sntp_on : Option Sntp → Bool
sntp_on none = false
sntp_on (some s) = s.enabled

update_timezone-Unzoned :
    (w : World) (zone : Bytes) (b : Bridge)
    → Holds Unzoned b.orchestrator
    → Holds Unzoned (update_timezone w zone b).orchestrator
unfolding update_timezone
update_timezone-Unzoned w zone b h =
    map_orchestrator-Holds Unzoned (use_authority (new_authority w b.time_health zone))
      b.orchestrator (keeps (new_authority w b.time_health zone)) h
  where
    keeps : (a : Option Authority) (o : Orchestrator) → Unzoned o → Unzoned (use_authority a o)
    keeps none o k = k
    keeps (some a) o k = set_time_authority-Unzoned a o k

map_orchestrator-InZone :
    (z : GoTime → GoTime) (P : Orchestrator → Type 0) (f : Orchestrator → Orchestrator)
    (o : Option Orchestrator)
    → ((o : Orchestrator) → P o → InZone z (f o))
    → Holds P o
    → Holds (InZone z) (elim o [ none ↦ none | some o ↦ some (f o) ])
map_orchestrator-InZone z P f none zones h = h
map_orchestrator-InZone z P f (some o) zones h = zones o h

update_timezone-InZone :
    (w : World) (zone : Bytes) (z : GoTime → GoTime) (b : Bridge)
    → is_blank zone ≡ false
    → w.load_location zone ≡ some z
    → Holds Unzoned b.orchestrator
    → Holds (InZone z) (update_timezone w zone b).orchestrator
unfolding update_timezone
update_timezone-InZone w zone z b named h =
    map_orchestrator-InZone z Unzoned (use_authority (new_authority w b.time_health zone))
      b.orchestrator (λ o u. zoned w b.time_health zone z o named h)

restart_sntp-InZone :
    (w : World) (s : Option Sntp) (z : GoTime → GoTime) (b : Bridge)
    → Holds Unzoned b.orchestrator
    → Holds (InZone z) b.orchestrator
    → Holds (InZone (if sntp_on s then w.local else z)) (restart_sntp w s b).orchestrator
unfolding restart_sntp
restart_sntp-InZone w none z b u h = h
restart_sntp-InZone w (some s) z b u h =
    elim s.enabled
      as (λ e.
        Holds (InZone (if e then w.local else z))
          (if e
            then map_orchestrator (set_time_health w (some (sntp_health s)))
                (record b { time_health = some (sntp_health s) })
            else record b { time_health = none }).orchestrator) [
              | false ↦ h
              | true ↦
                  map_orchestrator-InZone w.local Unzoned (set_time_health w (some (sntp_health s)))
                    b.orchestrator (set_time_health-InZone w (some (sntp_health s))) u
            ]

module _ (J : Json) where
  start_cameras-Unzoned :
      (w : World) (s : Service J.Text) (m : Manager) (cs : List Camera)
      → HoldsAfter Unzoned (start_cameras J w s (some m) cs)
  unfolding start_cameras new_authority
  start_cameras-Unzoned w s m cs =
      then_handle-Holds Unzoned (add_camera-Keeps Unzoned attach-Unzoned) remove_camera-Unzoned
        set_time_authority-Unzoned J _ (started_with J w cs)
        (add_cameras-Holds Unzoned (add_camera-Keeps Unzoned attach-Unzoned) remove_camera-Unzoned
          set_time_authority-Unzoned J w cs _ refl)
        (started cs)
    where
      started :
          (ds : List Camera) (b : Bridge)
          → Holds Unzoned b.orchestrator
          → HoldsAfter Unzoned (started_with J w ds b)
      started [] b h = h
      started (d ∷ ds) b h =
          map_orchestrator-Holds Unzoned (start_all w.now) b.orchestrator (start_all-Unzoned w.now)
            h

  -- The time zone of the settings is used only while SNTP is off: when the settings have changed, at any
  -- time after the start, the authority of the orchestrator and of each of its capture workers reads local
  -- times in the zone of the system if the settings turn SNTP on, and in their own zone, which must be one
  -- that can be loaded, if they do not.
  pub global_updated-InZone :
      (w₀ : World) (s₀ : Service J.Text) (m : Manager) (ms : List (Moment J)) (w : World)
      (s : Service J.Text) (z : GoTime → GoTime)
      → is_blank s.global.timezone ≡ false
      → w.load_location s.global.timezone ≡ some z
      → HoldsAfter (InZone (if sntp_on s.global.sntp then w.local else z)) (
          then_handle J
            (then_handle J (start_bridge J w₀ s₀ (some m)) (handle_all J ms))
            (handle_config_event J w s global_updated))
  unfolding start_bridge handle_config_event
  global_updated-InZone w₀ s₀ m ms w s z named h =
      then_handle-HoldsAfter Unzoned (InZone (if sntp_on s.global.sntp then w.local else z)) J
        (then_handle J (start_bridge J w₀ s₀ (some m)) (handle_all J ms))
        (handle_config_event J w s global_updated)
        (then_handle-Holds Unzoned (add_camera-Keeps Unzoned attach-Unzoned) remove_camera-Unzoned
          set_time_authority-Unzoned J (start_bridge J w₀ s₀ (some m)) (handle_all J ms)
          (start_cameras-Unzoned w₀ s₀ m (list_cameras J s₀))
          (handle_all-Holds Unzoned (add_camera-Keeps Unzoned attach-Unzoned) remove_camera-Unzoned
            set_time_authority-Unzoned J ms))
        (λ b u.
          restart_sntp-InZone w s.global.sntp z (update_timezone w s.global.timezone b)
            (update_timezone-Unzoned w s.global.timezone b u)
            (update_timezone-InZone w s.global.timezone z b named h u))
