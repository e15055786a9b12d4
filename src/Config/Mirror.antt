-- ===== src/Config/Mirror.antt =====
-- The files of the configuration service against what it keeps in memory: internal/config/service.go.
use aviationwx_org_bridge.Prelude.{
  ◌≡◌, refl, sym, ap, subst, ◌∙◌, inl, inr, true, false, List, Option, none, some, Bool-cases,
  Option-cases, All,
}
use aviationwx_org_bridge.Files.Bytes.{
  Bytes, codes, bytes_eq, bytes_eq_iff, has_suffix, has_suffix-append,
}
use aviationwx_org_bridge.Files.Maps.{
  lookup, insert, erase, lookup-erase_ne, lookup-insert_self, lookup-insert_ne, lookup-insert_inv,
  lookup-erase_inv,
}
use aviationwx_org_bridge.Config.Types.{Camera}
use aviationwx_org_bridge.Config.Store.{
  Json, Node, text, unreadable, folder, file_of, backup_of, put, back_up,
}
use aviationwx_org_bridge.Config.Entries.{
  file_of_ne, backup-Json, json_ne_backup, lookup-put_self, lookup-put_ne, All-erase, All-put,
}
use aviationwx_org_bridge.Config.Service.{Service, read_settings}

module _ (J : Json) where
  open J use {Text, of_camera, of_settings, to_camera, to_settings}

  -- An entry with a .json name is the file of a camera in memory, or a folder.
  abbrev pub Fits : List (Bytes × Camera) → Bytes × Node Text → Type 0
  Fits m (name, folder) = Unit {0}
  Fits m (name, unreadable) = has_suffix name (codes ".json") ≡ false
  Fits m (name, text t) =
      has_suffix name (codes ".json") ≡ true
      → (id : Bytes) × (c : Camera) × (name ≡ file_of id)
        × (lookup id m ≡ some c)
        × (t ≡ of_camera c)

  -- The files of the cameras are right for the cameras in memory.
  pub record Filed (m : List (Bytes × Camera)) (files : List (Bytes × Node Text)) : Type 0 where
    pub named : (id : Bytes) (c : Camera) → lookup id m ≡ some c → c.id ≡ id
    pub stored :
        (id : Bytes) (c : Camera)
        → lookup id m ≡ some c
        → lookup (file_of id) files ≡ some (text (of_camera c))
    pub fits : All (Fits m) files

  pub record Mirrors (s : Service Text) : Type 0 where
    pub settings : read_settings J s.disk.settings_file ≡ some s.global
    pub filed : Filed s.cameras s.disk.camera_files

  -- Entries that fit go on to fit when a camera is changed whose file has another name.
  Fits-keep :
      (m m' : List (Bytes × Camera)) (id : Bytes)
      → ((j : Bytes) → bytes_eq j id ≡ false → lookup j m' ≡ lookup j m)
      → (name : Bytes) (w : Node Text) → bytes_eq (file_of id) name ≡ false
      → Fits m (name, w)
      → Fits m' (name, w)
  Fits-keep m m' id same name folder other fit = tt
  Fits-keep m m' id same name unreadable other fit = fit
  Fits-keep m m' id same name (text t) other fit = λ json.
      let (j, c, named, known, content) = fit json in
      let differ : bytes_eq j id ≡ false = elim (Bool-cases (bytes_eq j id)) [
        | inr ne ↦ ne
        | inl eq ↦
            let e : file_of id ≡ name = ap file_of (sym ((bytes_eq_iff j id).0 eq)) ∙ sym named in
            absurd (cc (other, (bytes_eq_iff (file_of id) name).1 e))
      ] in
      (j, c, named, same j differ ∙ known, content)

  put_backup-Filed :
      (m : List (Bytes × Camera)) (id : Bytes) (v : Node Text) (files : List (Bytes × Node Text))
      → Filed m files
      → Filed m (put (backup_of (file_of id)) v files)
  put_backup-Filed m id v files f = record {
    named = f.named;
    stored = λ j c known.
        lookup-put_ne (file_of j) (backup_of (file_of id)) v files
          (json_ne_backup (file_of j) id (has_suffix-append j (codes ".json")))
        ∙ f.stored j c known;
    fits =
        All-put (Fits m) (Fits m) (backup_of (file_of id)) v files (fresh v)
          (λ name w other fit. fit) f.fits;
  }
    where
      fresh : (v : Node Text) → Fits m (backup_of (file_of id), v)
      fresh folder = tt
      fresh unreadable = backup-Json id
      fresh (text t) = λ json. absurd (cc (json, backup-Json id))

  pub back_up-Filed :
      (m : List (Bytes × Camera)) (id : Bytes) (o : Option (Node Text))
      (files : List (Bytes × Node Text))
      → Filed m files
      → Filed m (back_up o (file_of id) files)
  unfolding back_up
  back_up-Filed m id none files f = f
  back_up-Filed m id (some v) files f = elim (Option-cases (lookup (file_of id) files)) [
    | inl absent ↦
        subst
          (λ (o : Option (Node Text)).
            Filed m (elim o [ none ↦ files | some _ ↦ put (backup_of (file_of id)) v files ]))
          (sym absent) f
    | inr (w, there) ↦
        subst
          (λ (o : Option (Node Text)).
            Filed m (elim o [ none ↦ files | some _ ↦ put (backup_of (file_of id)) v files ]))
          (sym there) (put_backup-Filed m id v files f)
  ]

  pub put-Filed :
      (m : List (Bytes × Camera)) (c : Camera) (files : List (Bytes × Node Text))
      → Filed m files
      → Filed (insert c.id c m) (put (file_of c.id) (text (of_camera c)) files)
  put-Filed m c files f = record {
    named = λ j d known. elim (lookup-insert_inv j c.id c d m known) [
      | inl (same, content) ↦ subst (λ (x : Camera). x.id ≡ j) content same
      | inr (other, old) ↦ f.named j d old
    ];
    stored = λ j d known. elim (lookup-insert_inv j c.id c d m known) [
      | inl (same, content) ↦
          subst
            (λ (x : Camera).
              lookup (file_of j) (put (file_of c.id) (text (of_camera c)) files)
              ≡ some (text (of_camera x)))
            content
            (subst
              (λ x.
                lookup (file_of x) (put (file_of c.id) (text (of_camera c)) files)
                ≡ some (text (of_camera c)))
              same (lookup-put_self (file_of c.id) (text (of_camera c)) files))
      | inr (other, old) ↦
          lookup-put_ne (file_of j) (file_of c.id) (text (of_camera c)) files
            (file_of_ne j c.id other)
          ∙ f.stored j d old
    ];
    fits =
        All-put (Fits m) (Fits (insert c.id c m)) (file_of c.id) (text (of_camera c)) files
          (λ json. (c.id, c, refl, lookup-insert_self c.id c m, refl))
          (Fits-keep m (insert c.id c m) c.id (λ j differ. lookup-insert_ne j c.id c m differ))
          f.fits;
  }

  pub erase-Filed :
      (m : List (Bytes × Camera)) (id : Bytes) (files : List (Bytes × Node Text))
      → Filed m files
      → Filed (erase id m) (erase (file_of id) files)
  erase-Filed m id files f = record {
    named = λ j d known. f.named j d (lookup-erase_inv j id d m known).1;
    stored = λ j d known.
        let (other, old) = lookup-erase_inv j id d m known in
        lookup-erase_ne (file_of j) (file_of id) files (file_of_ne j id other) ∙ f.stored j d old;
    fits =
        All-erase (Fits m) (Fits (erase id m)) (file_of id) files
          (Fits-keep m (erase id m) id (λ j differ. lookup-erase_ne j id m differ)) f.fits;
  }
