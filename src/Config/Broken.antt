-- ===== src/Config/Broken.antt =====
-- One broken camera file at the start of the configuration service: internal/config/service.go.
use aviationwx_org_bridge.Prelude.{
  ◌≡◌, refl, sym, ap, subst, ◌∙◌, ◌⊎◌, inl, inr, true, false, List, [], ◌∷◌, none, some, arith,
  Bool-cases,
}
use aviationwx_org_bridge.Files.Bytes.{Bytes, codes, bytes_eq, bytes_eq_iff, has_suffix}
use aviationwx_org_bridge.Files.Maps.{lookup, insert}
use aviationwx_org_bridge.Config.Types.{Camera, GlobalSettings, default_settings}
use aviationwx_org_bridge.Config.Defaults.{get_web_password}
use aviationwx_org_bridge.Config.Store.{Json, Node, text, Disk, Faults, complete, write_settings}
use aviationwx_org_bridge.Config.Loading.{load_cameras-passed, load_cameras-camera}
use aviationwx_org_bridge.Config.Service.{
  Service, Loaded, passed, broken, camera, load_entry, parse_camera, load_cameras, read_settings,
  reload, opened, open_loaded, open_saved, new_service,
}

module _ (J : Json) where
  open J use {Text, of_settings, to_camera}

  Loaded-cases : (l : Loaded J) → (l ≡ passed) ⊎ ((l ≡ broken) ⊎ ((c : Camera) × (l ≡ camera c)))
  Loaded-cases passed = inl refl
  Loaded-cases broken = inr (inl refl)
  Loaded-cases (camera c) = inr (inr (c, refl))

  load_cameras-broken :
      (name : Bytes) (node : Node Text) (es : List (Bytes × Node Text)) (m : List (Bytes × Camera))
      → load_entry J name node ≡ broken
      → (load_cameras J ((name, node) ∷ es) m).0 ≡ false
  unfolding load_cameras
  load_cameras-broken name node es m e = rw (load_cameras, e) refl

  -- The loop does not come to its end if an entry is broken.
  load_cameras_stopped :
      (name : Bytes) (node : Node Text) (es : List (Bytes × Node Text)) (m : List (Bytes × Camera))
      → lookup name es ≡ some node
      → load_entry J name node ≡ broken
      → (load_cameras J es m).0 ≡ false
  unfolding lookup
  load_cameras_stopped name node [] m there e = absurd (cc (there))
  load_cameras_stopped name node ((n, w) ∷ es) m there e = elim (Bool-cases (bytes_eq name n)) [
    | inl same ↦
        let content : w ≡ node = ground (arith, there, same) in
        let names : name ≡ n = (bytes_eq_iff name n).0 same in
        load_cameras-broken n w es m (
          subst (λ x. load_entry J x w ≡ broken) names
            (subst (λ x. load_entry J name x ≡ broken) (sym content) e))
    | inr other ↦
        let later : lookup name es ≡ some node = ground (arith, there, other) in
        elim (Loaded-cases (load_entry J n w)) [
          | inl passes ↦
              rw (load_cameras-passed J n w es m passes)
                (load_cameras_stopped name node es m later e)
          | inr (inl breaks) ↦ load_cameras-broken n w es m breaks
          | inr (inr (c, loads)) ↦
              rw (load_cameras-camera J n w es m c loads)
                (load_cameras_stopped name node es (insert c.id c m) later e)
        ]
  ]

  load_entry_unparsed :
      (name : Bytes) (t : Text)
      → has_suffix name (codes ".json") ≡ true
      → to_camera t ≡ none
      → load_entry J name (text t) ≡ broken
  unfolding load_entry parse_camera
  load_entry_unparsed name t json bad = rw (json, bad) refl

  reload_stopped :
      (f : Faults Text) (d : Disk Text) (g : GlobalSettings)
      → f.directory_unreadable ≡ false
      → read_settings J d.settings_file ≡ some g
      → (load_cameras J d.camera_files []).0 ≡ false
      → reload J f d ≡ (none, (load_cameras J d.camera_files []).1)
  unfolding reload
  reload_stopped f d g readable settings stopped =
      rw (reload, settings) (rw (readable, stopped) refl)

  -- If the file of one camera cannot be parsed, the service starts all the same, with the default
  -- settings in place of those that could be read, also in global.json, and the default password.
  pub new_service_unparsed :
      (f : Faults Text) (d : Disk Text) (g : GlobalSettings) (name : Bytes) (t : Text)
      → f.directory_unreadable ≡ false
      → f.writing ≡ complete
      → read_settings J d.settings_file ≡ some g
      → lookup name d.camera_files ≡ some (text t)
      → has_suffix name (codes ".json") ≡ true
      → to_camera t ≡ none
      → (s : Service Text) × (new_service J f d ≡ opened s)
        × (s.global ≡ default_settings)
        × (s.disk.settings_file ≡ some (text (of_settings default_settings)))
        × (get_web_password s.global ≡ codes "aviationwx")
  unfolding new_service open_loaded open_saved get_web_password bytes_eq
  new_service_unparsed f d g name t readable writes settings there json bad =
      let stopped =
        load_cameras_stopped name (text t) d.camera_files [] there
          (load_entry_unparsed name t json bad) in
      (
        record {
          global = default_settings;
          cameras = (load_cameras J d.camera_files []).1;
          disk = record d { settings_file = some (text (of_settings default_settings)) };
          events = [];
        },
        ap (λ r. open_loaded J r f d) (reload_stopped f d g readable settings stopped)
            ∙ ap
                (λ w.
                  open_saved J default_settings (load_cameras J d.camera_files []).1 d
                    (write_settings w (of_settings default_settings) d.settings_file))
                writes,
        refl,
        refl,
        refl,
      )
