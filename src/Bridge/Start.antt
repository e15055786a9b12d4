-- ===== src/Bridge/Start.antt =====
-- cmd/bridge/main.go: the start of the daemon, main up to the web server with initOrchestrator.
use aviationwx_org_bridge.Prelude.{List, [], ◌∷◌, Option, none, some, if◌then◌else◌}
use aviationwx_org_bridge.Prelude.Int.{ℤ, pos}
use aviationwx_org_bridge.Queue.Manager.{Manager}
use aviationwx_org_bridge.Time.Health.{TimeHealth}
use aviationwx_org_bridge.Config.Types.{Camera, Global, Sntp}
use aviationwx_org_bridge.Config.Defaults.{or_default}
use aviationwx_org_bridge.Config.Store.{Json}
use aviationwx_org_bridge.Config.Service.{Service, list_cameras}
use aviationwx_org_bridge.Bridge.Orchestrator.{
  Orchestrator, default_orchestrator_config, new_orchestrator, start_all,
}
use aviationwx_org_bridge.Bridge.Events.{
  World, Bridge, Handled, handled, new_authority, sntp_health, add_enabled, then_handle,
  map_orchestrator,
}

module _ (J : Json) where
  open J use {Text}

  -- The loop of initOrchestrator over the cameras.
  unfoldable pub add_cameras : World → List Camera → Bridge → Handled
  add_cameras w [] b = handled b
  add_cameras w (c ∷ cs) b = then_handle J (add_enabled w c b) (add_cameras w cs)

  abbrev pub max_uploads : Option Global → ℤ
  max_uploads none = pos 2
  max_uploads (some g) = elim g.max_concurrent_uploads [
    | ℤ.pos n ↦ or_default (pos 2) (pos n)
    | ℤ.negsuc n ↦ pos 2
  ]

  -- The orchestrator, without a zone; the manager is there if its directory could be made.
  abbrev pub init_orchestrator : World → Service Text → Option Manager → Option Orchestrator
  init_orchestrator w s none = none
  init_orchestrator w s (some m) = elim (new_authority w none []) [
    | none ↦ none
    | some a ↦ some (
        new_orchestrator
          (record default_orchestrator_config {
            max_concurrent_uploads = max_uploads s.global.global;
            auth_backoff_secs = 0;
          })
          m a)
  ]

  abbrev pub started_with : World → List Camera → Bridge → Handled
  started_with w [] b = handled b
  started_with w (c ∷ cs) b = handled (map_orchestrator (start_all w.now) b)

  abbrev pub first_health : Option Sntp → Option TimeHealth
  first_health none = none
  first_health (some s) = if s.enabled then some (sntp_health s) else none

  abbrev pub add_initial : World → List Camera → Option Orchestrator → Bridge → Handled
  add_initial w cs none b = handled b
  add_initial w cs (some o) b = add_cameras w cs (record b { orchestrator = some o })

  unfoldable pub start_cameras : World → Service Text → Option Manager → List Camera → Handled
  unfolding new_authority add_cameras
  start_cameras w s m cs =
      then_handle J
        (add_initial w cs (init_orchestrator w s m) (record {
          orchestrator = none;
          time_health = first_health s.global.sntp;
          worker_status = [];
          last_captures = [];
        }))
        (started_with w cs)

  -- main, up to the web server: the cameras are added, and the workers started if there are cameras.
  unfoldable pub start_bridge : World → Service Text → Option Manager → Handled
  unfolding start_cameras
  start_bridge w s m = start_cameras w s m (list_cameras J s)
