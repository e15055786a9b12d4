-- ===== src/Config/Migrate.antt =====
-- internal/config/migrate.go: MigrateFromLegacy and InitOrMigrate.
use aviationwx_org_bridge.Prelude.{Bool, List, [], ◌∷◌, Option, none, some, if◌then◌else◌}
use aviationwx_org_bridge.Files.Bytes.{Bytes}
use aviationwx_org_bridge.Config.Types.{Camera, Config, GlobalSettings}
use aviationwx_org_bridge.Config.Store.{Json, Node, text, Disk, Faults}
use aviationwx_org_bridge.Config.Service.{
  Service, Failure, add_camera, update_global, new_service, Opened, opened, not_opened,
}

-- The new files, and the old configuration file while it has its name.
pub record Host (T : Type 0) : Type 0 where
  pub disk : Disk T
  pub legacy : Option (Node T)

-- What fails in the steps of a start.
pub record StartFaults (T : Type 0) : Type 0 where
  pub opening : Faults T
  pub settings : Faults T
  pub camera : Bytes → Faults T
  pub rename_fails : Bool
  pub reopening : Faults T

pub data MigrationError : Type 0 where
  unreadable_legacy broken_legacy no_service : MigrationError
  settings_failed camera_failed : Failure → MigrationError

module _ (J : Json) where
  open J use {Text, to_config}

  abbrev pub legacy_settings : Config → GlobalSettings → Option GlobalSettings
  legacy_settings c g = some (record g {
    version = c.version;
    timezone = c.timezone;
    global = c.global;
    queue = c.queue;
    sntp = c.sntp;
    web_console = c.web_console;
  })

  abbrev pub or_fail :
      Option Failure × Service Text
      → (Service Text → Option Failure × Service Text)
      → Option Failure × Service Text
  or_fail (some e, s) next = (some e, s)
  or_fail (none, s) next = next s

  -- The loop over the cameras, up to the first that is not added.
  unfoldable pub add_all :
      (Bytes → Faults Text) → List Camera → Service Text → Option Failure × Service Text
  add_all f [] s = (none, s)
  add_all f (c ∷ cs) s = or_fail (add_camera J c (f c.id) s) (add_all f cs)

  unfoldable pub finish_cameras :
      StartFaults Text
      → Option (Node Text)
      → Option Failure × Service Text
      → Option MigrationError × Host Text
  finish_cameras f legacy (some e, s) =
      (some (camera_failed e), record { disk = s.disk; legacy = legacy })
  finish_cameras f legacy (none, s) =
      (none, record { disk = s.disk; legacy = if f.rename_fails then legacy else none })

  unfoldable pub then_cameras :
      StartFaults Text
      → Config
      → Option (Node Text)
      → Option Failure × Service Text
      → Option MigrationError × Host Text
  unfolding finish_cameras add_all
  then_cameras f c legacy (some e, s) =
      (some (settings_failed e), record { disk = s.disk; legacy = legacy })
  then_cameras f c legacy (none, s) = finish_cameras f legacy (add_all f.camera c.cameras s)

  unfoldable pub then_settings :
      StartFaults Text → Config → Option (Node Text) → Opened J → Option MigrationError × Host Text
  unfolding then_cameras
  then_settings f c legacy (not_opened d) = (some no_service, record { disk = d; legacy = legacy })
  then_settings f c legacy (opened s) =
      then_cameras f c legacy (update_global J (legacy_settings c) f.settings s)

  unfoldable pub migrate_config :
      StartFaults Text → Option Config → Host Text → Option MigrationError × Host Text
  unfolding then_settings
  migrate_config f none h = (some broken_legacy, h)
  migrate_config f (some c) h = then_settings f c h.legacy (new_service J f.opening h.disk)

  unfoldable pub migrate_from_legacy :
      StartFaults Text → Host Text → Option MigrationError × Host Text
  unfolding migrate_config
  migrate_from_legacy f h = elim h.legacy [
    | some (text t) ↦ migrate_config f (to_config t) h
    | _ ↦ (some unreadable_legacy, h)
  ]

  pub data Started : Type 0 where
    started : Service Text → Started
    not_migrated : MigrationError → Host Text → Started
    no_start : Host Text → Started

  abbrev pub start_with : Option (Node Text) → Opened J → Started
  start_with legacy (opened s) = started s
  start_with legacy (not_opened d) = no_start (record { disk = d; legacy = legacy })

  unfoldable pub start_migrated : StartFaults Text → Option MigrationError × Host Text → Started
  start_migrated f (some e, h) = not_migrated e h
  start_migrated f (none, h) = start_with h.legacy (new_service J f.reopening h.disk)

  -- Without new settings: the old file is migrated if there is one.
  unfoldable pub start_first : Option (Node Text) → StartFaults Text → Host Text → Started
  unfolding start_migrated migrate_from_legacy
  start_first (some old) f h = start_migrated f (migrate_from_legacy f h)
  start_first none f h = start_with none (new_service J f.opening h.disk)

  unfoldable pub start_on : Option (Node Text) → StartFaults Text → Host Text → Started
  unfolding start_first
  start_on (some settings) f h = start_with h.legacy (new_service J f.opening h.disk)
  start_on none f h = start_first h.legacy f h

  unfoldable pub init_or_migrate : StartFaults Text → Host Text → Started
  unfolding start_on
  init_or_migrate f h = start_on h.disk.settings_file f h
