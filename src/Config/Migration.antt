-- ===== src/Config/Migration.antt =====
-- What a migration of internal/config/migrate.go leaves, and what the next start makes of it.
use aviationwx_org_bridge.Prelude.{
  ◌≡◌, refl, sym, ap, subst, ◌∙◌, inl, inr, false, List, [], ◌∷◌, ◌++◌, Option, none, some,
  if◌then◌else◌, Bool-cases, All,
}
use aviationwx_org_bridge.Files.Bytes.{Bytes, bytes_eq, bytes_eq_iff, bytes_eq_sym}
use aviationwx_org_bridge.Files.Maps.{lookup, insert, lookup-insert_self, lookup-insert_ne}
use aviationwx_org_bridge.Config.Types.{
  Camera, Config, default_settings, camera_added, global_updated,
}
use aviationwx_org_bridge.Config.Store.{
  Json, ReadsBack, text, Faults, complete, file_of, put, write, back_up,
}
use aviationwx_org_bridge.Config.Mirror.{Mirrors, back_up-Filed, put-Filed}
use aviationwx_org_bridge.Config.Service.{
  Service, Failure, already_exists, save_camera_file, saved, add_camera, update_global, set_global,
  new_service, opened, reload, open_loaded, open_saved,
}
use aviationwx_org_bridge.Config.Migrate.{
  Host, StartFaults, add_all, or_fail, finish_cameras, then_cameras, then_settings, migrate_config,
  legacy_settings, migrate_from_legacy,
}

-- The ids differ.
abbrev pub DistinctIds : List Camera → Type 0
DistinctIds [] = Unit {0}
DistinctIds (c ∷ cs) = All (λ d. bytes_eq c.id d.id ≡ false) cs × DistinctIds cs

-- The camera of an id in a list.
unfoldable pub find_camera : Bytes → List Camera → Option Camera
find_camera id [] = none
find_camera id (c ∷ cs) = if bytes_eq id c.id then some c else find_camera id cs

find_camera_absent :
    (id : Bytes) (cs : List Camera)
    → All (λ (d : Camera). bytes_eq id d.id ≡ false) cs
    → find_camera id cs ≡ none
unfolding find_camera
find_camera_absent id [] h = refl
find_camera_absent id (d ∷ ds) h = rw (h.0) (find_camera_absent id ds h.1)

abbrev pub or_there : Option Camera → Option Camera → Option Camera
or_there none o = o
or_there (some c) o = some c

module _ (J : Json) (f : Bytes → Faults J.Text)
    (works : (id : Bytes) → (f id).writing ≡ complete) where
  open J use {Text, of_camera}

  -- The service after a camera was added.
  abbrev added : Camera → Service Text → Service Text
  added c s = record s {
    cameras = insert c.id c s.cameras;
    disk = record (s.disk) {
      camera_files =
          put (file_of c.id) (text (of_camera c))
            (back_up (f c.id).backup (file_of c.id) s.disk.camera_files);
    };
    events = s.events ++ camera_added c.id ∷ [];
  }

  add_camera-added :
      (c : Camera) (s : Service Text)
      → lookup c.id s.cameras ≡ none
      → add_camera J c (f c.id) s ≡ (none, added c s)
  unfolding add_camera save_camera_file saved write
  add_camera-added c s absent = rw (add_camera, absent) (rw (works c.id, write) refl)

  pub add_camera_again :
      (c d : Camera) (g : Faults Text) (s : Service Text)
      → lookup c.id s.cameras ≡ some d
      → add_camera J c g s ≡ (some already_exists, s)
  unfolding add_camera
  add_camera_again c d g s there = rw (add_camera, there) refl

  add_all-next :
      (c : Camera) (cs : List Camera) (s s' : Service Text)
      → add_camera J c (f c.id) s ≡ (none, s')
      → add_all J f (c ∷ cs) s ≡ add_all J f cs s'
  unfolding add_all
  add_all-next c cs s s' e = ap (λ r. or_fail J r (add_all J f cs)) e

  pub add_all-stops :
      (c : Camera) (cs : List Camera) (s : Service Text) (e : Failure)
      → add_camera J c (f c.id) s ≡ (some e, s)
      → add_all J f (c ∷ cs) s ≡ (some e, s)
  unfolding add_all
  add_all-stops c cs s e h = ap (λ r. or_fail J r (add_all J f cs)) h

  new_after :
      (c : Camera) (s : Service Text) (cs : List Camera)
      → All (λ (d : Camera). bytes_eq c.id d.id ≡ false) cs
      → All (λ (d : Camera). lookup d.id s.cameras ≡ none) cs
      → All (λ (d : Camera). lookup d.id (insert c.id c s.cameras) ≡ none) cs
  new_after c s [] differ new = tt
  new_after c s (d ∷ ds) differ new = (
    lookup-insert_ne d.id c.id c s.cameras (bytes_eq_sym c.id d.id differ.0) ∙ new.0,
    new_after c s ds differ.1 new.1,
  )

  added-Mirrors : (c : Camera) (s : Service Text) → Mirrors J s → Mirrors J (added c s)
  added-Mirrors c s h = record {
    settings = h.settings;
    filed =
        put-Filed J s.cameras c _
          (back_up-Filed J s.cameras c.id (f c.id).backup s.disk.camera_files h.filed);
  }

  -- Cameras with new and different ids are added one after the other, and what follows goes on from there.
  pub record AddsAll (cs ds : List Camera) (s : Service Text) : Type 0 where
    pub after : Service Text
    pub runs : add_all J f (cs ++ ds) s ≡ add_all J f ds after
    pub mirrors : Mirrors J after
    pub global : after.global ≡ s.global
    pub cameras :
        (id : Bytes) → lookup id after.cameras ≡ or_there (find_camera id cs) (lookup id s.cameras)

  pub adds_each :
      (cs ds : List Camera) (s : Service Text)
      → Mirrors J s
      → DistinctIds cs
      → All (λ (c : Camera). lookup c.id s.cameras ≡ none) cs
      → AddsAll cs ds s
  unfolding find_camera
  adds_each [] ds s h distinct new = record {
    after = s;
    runs = refl;
    mirrors = h;
    global = refl;
    cameras = λ id. refl;
  }
  adds_each (c ∷ cs) ds s h distinct new =
      let rest =
        adds_each cs ds (added c s) (added-Mirrors c s h) distinct.1
          (new_after c s cs distinct.0 new.1) in
      record {
        after = rest.after;
        runs = add_all-next c (cs ++ ds) s (added c s) (add_camera-added c s new.0) ∙ rest.runs;
        mirrors = rest.mirrors;
        global = rest.global;
        cameras = λ id. rest.cameras id ∙ elim (Bool-cases (bytes_eq id c.id)) [
          | inr other ↦
              rw other
                (ap (or_there (find_camera id cs)) (lookup-insert_ne id c.id c s.cameras other))
          | inl same ↦
              let e : id ≡ c.id = (bytes_eq_iff id c.id).0 same in
              let gone : find_camera id cs ≡ none =
                subst (λ k. find_camera k cs ≡ none) (sym e)
                  (find_camera_absent c.id cs distinct.0) in
              let found : lookup id (insert c.id c s.cameras) ≡ some c =
                subst (λ k. lookup k (insert c.id c s.cameras) ≡ some c) (sym e)
                  (lookup-insert_self c.id c s.cameras) in
              rw (same, gone) found
        ];
      }

module _ (J : Json) where
  open J use {Text, of_settings, to_config}

  -- The service that the migration has before it adds cameras.
  abbrev pub prepared : Config → Service Text
  prepared c =
      let g = record default_settings {
        version = c.version;
        timezone = c.timezone;
        global = c.global;
        queue = c.queue;
        sntp = c.sntp;
        web_console = c.web_console;
      } in
      record {
        global = g;
        cameras = [];
        disk = record { settings_file = some (text (of_settings g)); camera_files = [] };
        events = global_updated ∷ [];
      }

  pub prepared-Mirrors : ReadsBack J → (c : Config) → Mirrors J (prepared c)
  unfolding lookup
  prepared-Mirrors B c = record {
    settings = B.settings_back (prepared c).global;
    filed = record {
      named = λ id d h. absurd (cc (h));
      stored = λ id d h. absurd (cc (h));
      fits = tt;
    };
  }

  -- An old configuration file, and none of the new files yet.
  abbrev pub old_host : Text → Host Text
  old_host file = record {
    disk = record { settings_file = none; camera_files = [] };
    legacy = some (text file);
  }

  -- Every write is complete, and the directory can be read.
  pub record Works (f : StartFaults Text) : Type 0 where
    pub opening : f.opening.writing ≡ complete
    pub settings : f.settings.writing ≡ complete
    pub camera : (id : Bytes) → (f.camera id).writing ≡ complete
    pub readable : f.reopening.directory_unreadable ≡ false
    pub readable_again : f.opening.directory_unreadable ≡ false

  opening-prepared :
      (f g : Faults Text) (c : Config)
      → f.writing ≡ complete
      → g.writing ≡ complete
      → (s : Service Text) × (new_service J f (record { settings_file = none; camera_files = [] })
          ≡ opened s)
        × (update_global J (legacy_settings J c) g s ≡ (none, prepared c))
  unfolding new_service reload open_loaded open_saved update_global set_global
  opening-prepared f g c opens sets = (
    record {
      global = default_settings;
      cameras = [];
      disk = record {
        settings_file = some (text (of_settings default_settings));
        camera_files = [];
      };
      events = [];
    },
    rw opens refl,
    rw sets refl,
  )

  pub migrate_from_legacy-prepared :
      (f : StartFaults Text) (file : Text) (c : Config)
      → to_config file ≡ some c
      → Works f
      → migrate_from_legacy J f (old_host file)
        ≡ finish_cameras J f (some (text file)) (add_all J f.camera c.cameras (prepared c))
  unfolding migrate_from_legacy migrate_config then_settings then_cameras
  migrate_from_legacy-prepared f file c content w =
      let (s, opens, sets) = opening-prepared f.opening f.settings c w.opening w.settings in
      ap (λ o. migrate_config J f o (old_host file)) content
      ∙ ap (then_settings J f c (some (text file))) opens
      ∙ ap (then_cameras J f c (some (text file))) sets
