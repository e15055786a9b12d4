-- ===== src/Config/Restart.antt =====
-- InitOrMigrate of internal/config/migrate.go, from the first start on: all cameras are migrated, or some
-- are lost when the old configuration names an id twice.
use mathlib.Core.List.{append-nil}
use aviationwx_org_bridge.Prelude.{
  ◌≡◌, refl, sym, ap, ◌∙◌, List, [], ◌∷◌, ◌++◌, Option, none, some, All, false, if◌then◌else◌,
}
use aviationwx_org_bridge.Files.Bytes.{Bytes}
use aviationwx_org_bridge.Files.Maps.{lookup}
use aviationwx_org_bridge.Config.Types.{Camera, Config, GlobalSettings, Sntp}
use aviationwx_org_bridge.Config.Store.{Json, ReadsBack, Node, text, Faults}
use aviationwx_org_bridge.Config.Loading.{normalized}
use aviationwx_org_bridge.Config.Reopen.{new_service-Mirrors}
use aviationwx_org_bridge.Config.Service.{Service, already_exists, new_service, read_settings}
use aviationwx_org_bridge.Config.Migrate.{
  Host, StartFaults, camera_failed, add_all, finish_cameras, migrate_from_legacy, start_migrated,
  start_with, start_on, start_first, init_or_migrate, Started, started, not_migrated,
}
use aviationwx_org_bridge.Config.Migration.{
  DistinctIds, find_camera, or_there, AddsAll, adds_each, add_all-stops, add_camera_again, Works,
  old_host, prepared, prepared-Mirrors, migrate_from_legacy-prepared,
}

or_there-none : (o : Option Camera) → or_there o none ≡ o
or_there-none none = refl
or_there-none (some c) = refl

unknown : (cs : List Camera) → All (λ (c : Camera). lookup {A = Camera} c.id [] ≡ none) cs
unfolding lookup
unknown [] = tt
unknown (c ∷ cs) = (refl, unknown cs)

module _ (J : Json) where
  open J use {Text, to_config}

  -- A service is started with these settings and, normalized, these cameras and no others.
  abbrev pub StartsWith : GlobalSettings → List Camera → Started J → Type 0
  StartsWith g cs r =
      (s : Service Text) × (r ≡ started s)
      × (s.global ≡ g)
      × ((id : Bytes) → lookup id s.cameras ≡ normalized (find_camera id cs))

  module _ (B : ReadsBack J) (f : StartFaults Text) (c : Config) (w : Works J f) where
    migrated :
        (cs ds : List Camera) → DistinctIds cs → AddsAll J f.camera w.camera cs ds (prepared J c)
    migrated cs ds distinct =
        adds_each J f.camera w.camera cs ds (prepared J c) (prepared-Mirrors J B c) distinct
          (unknown cs)

    -- What the next start makes of the files.
    reopened :
        (g : Faults Text) (x : Sntp) (legacy : Option (Node Text)) (cs ds : List Camera)
        (a : AddsAll J f.camera w.camera cs ds (prepared J c))
        → g.directory_unreadable ≡ false
        → c.sntp ≡ some x
        → StartsWith (prepared J c).global cs (start_with J legacy (new_service J g a.after.disk))
    unfolding lookup
    reopened g x legacy cs ds a readable sntp =
        let (s, opens, global, disk, cameras) =
          new_service-Mirrors J B g a.after x readable
            (ap (λ (y : GlobalSettings). y.sntp) a.global ∙ sntp) a.mirrors in
        (
          s,
          ap (start_with J legacy) opens,
          global ∙ a.global,
          λ id. cameras id ∙ ap normalized (a.cameras id ∙ found id cs),
        )
      where
        found :
            (id : Bytes) (cs : List Camera)
            → or_there (find_camera id cs) (lookup {A = Camera} id []) ≡ find_camera id cs
        found id cs = or_there-none (find_camera id cs)

    settings_there :
        (o : Option (Node Text)) (g : GlobalSettings)
        → read_settings J o ≡ some g
        → (n : Node Text) × (o ≡ some n)
    settings_there none g h = absurd (cc (h))
    settings_there (some n) g h = (n, refl)

  start_again :
      (f : StartFaults Text) (h : Host Text) (n : Node Text)
      → h.disk.settings_file ≡ some n
      → init_or_migrate J f h ≡ start_with J h.legacy (new_service J f.opening h.disk)
  unfolding init_or_migrate start_on
  start_again f h n there = ap (λ o. start_on J o f h) there

  -- An old configuration with different ids is migrated whole: the service that starts has its settings
  -- and each of its cameras, with normalized upload settings, and no others.
  pub init_or_migrate-StartsWith :
      ReadsBack J
      → (f : StartFaults Text) (file : Text) (c : Config) (x : Sntp) → to_config file ≡ some c
      → c.sntp ≡ some x
      → DistinctIds c.cameras
      → Works J f
      → StartsWith (prepared J c).global c.cameras (init_or_migrate J f (old_host J file))
  unfolding init_or_migrate start_on start_first start_migrated finish_cameras add_all
  init_or_migrate-StartsWith B f file c x content sntp distinct w =
      let a = migrated B f c w c.cameras [] distinct in
      let runs : add_all J f.camera c.cameras (prepared J c) ≡ (none, a.after) =
        ap (λ cs. add_all J f.camera cs (prepared J c)) (sym (append-nil c.cameras)) ∙ a.runs in
      let whole : migrate_from_legacy J f (old_host J file)
          ≡ finish_cameras J f (some (text file)) (none, a.after) =
        migrate_from_legacy-prepared J f file c content w
        ∙ ap (finish_cameras J f (some (text file))) runs in
      let (s, opens, global, cameras) =
        reopened B f c w f.reopening x (if f.rename_fails then some (text file) else none) c.cameras
          [] a w.readable sntp in
      (s, ap (start_migrated J f) whole ∙ opens, global, cameras)

  -- If the old configuration names an id a second time, the migration stops there with an error. The
  -- next start does not report one: it has the cameras before the second one, and no others.
  pub init_or_migrate_twice :
      ReadsBack J
      → (f : StartFaults Text) (file : Text) (c : Config) (x : Sntp) (cs ds : List Camera)
        (d e : Camera)
      → to_config file ≡ some c
      → c.sntp ≡ some x
      → c.cameras ≡ cs ++ (d ∷ ds)
      → DistinctIds cs
      → find_camera d.id cs ≡ some e
      → Works J f
      → (h : Host Text) × (init_or_migrate J f (old_host J file)
          ≡ not_migrated (camera_failed already_exists) h)
        × (h.legacy ≡ some (text file))
        × StartsWith (prepared J c).global cs (init_or_migrate J f h)
  unfolding init_or_migrate start_on start_first start_migrated finish_cameras
  init_or_migrate_twice B f file c x cs ds d e content sntp list distinct again w =
      let a = migrated B f c w cs (d ∷ ds) distinct in
      let there : lookup d.id a.after.cameras ≡ some e =
        a.cameras d.id ∙ ap (λ o. or_there o (lookup d.id (prepared J c).cameras)) again in
      let runs : add_all J f.camera c.cameras (prepared J c) ≡ (some already_exists, a.after) =
        ap (λ l. add_all J f.camera l (prepared J c)) list
        ∙ a.runs
        ∙ add_all-stops J f.camera w.camera d ds a.after already_exists
            (add_camera_again J f.camera w.camera d e (f.camera d.id) a.after there) in
      let stopped : migrate_from_legacy J f (old_host J file)
          ≡ finish_cameras J f (some (text file)) (some already_exists, a.after) =
        migrate_from_legacy-prepared J f file c content w
        ∙ ap (finish_cameras J f (some (text file))) runs in
      let (n, kept) =
        settings_there B f c w a.after.disk.settings_file a.after.global a.mirrors.settings in
      let (s, opens, global, cameras) =
        reopened B f c w f.opening x (some (text file)) cs (d ∷ ds) a w.readable_again sntp in
      (
        record { disk = a.after.disk; legacy = some (text file) },
        ap (start_migrated J f) stopped,
        refl,
        (
          s,
          start_again f (record { disk = a.after.disk; legacy = some (text file) }) n kept ∙ opens,
          global,
          cameras,
        ),
      )
