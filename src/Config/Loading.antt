-- ===== src/Config/Loading.antt =====
-- What the loop of reload in internal/config/service.go makes of files that are right.
use aviationwx_org_bridge.Prelude.{
  ◌≡◌, refl, sym, ap, subst, ◌∙◌, ◌⊎◌, inl, inr, Bool, true, false, List, [], ◌∷◌, Option, none,
  some, arith, Bool-cases, All,
}
use aviationwx_org_bridge.Files.Bytes.{
  Bytes, codes, bytes_eq, bytes_eq_iff, has_suffix, has_suffix-append,
}
use aviationwx_org_bridge.Files.Maps.{lookup, insert, lookup-insert_self, lookup-insert_ne}
use aviationwx_org_bridge.Config.Types.{Camera}
use aviationwx_org_bridge.Config.Defaults.{normalize}
use aviationwx_org_bridge.Config.Store.{Json, ReadsBack, Node, text, unreadable, folder, file_of}
use aviationwx_org_bridge.Config.Entries.{file_of_inj}
use aviationwx_org_bridge.Config.Mirror.{Fits}
use aviationwx_org_bridge.Config.Service.{passed, camera, load_entry, parse_camera, load_cameras}

abbrev pub normalized : Option Camera → Option Camera
normalized none = none
normalized (some c) = some (normalize c)

module _ (J : Json) where
  open J use {Text, of_camera, to_camera}

  -- The loaded cameras have this one as memory has it, with its upload settings normalized.
  abbrev pub Right : List (Bytes × Camera) → List (Bytes × Camera) → Bytes → Type 0
  Right cams m id = lookup id m ≡ normalized (lookup id cams)

  abbrev pub From : List (Bytes × Camera) → List (Bytes × Camera) → Type 0
  From cams m = (id : Bytes) → (lookup id m ≡ none) ⊎ Right cams m id

  -- What an entry that fits is loaded as.
  data Entry (cams : List (Bytes × Camera)) (name : Bytes) (node : Node Text) : Type 0 where
    skipped :
        load_entry J name node ≡ passed
        → ((id : Bytes) (c : Camera) → name ≡ file_of id → node ≡ text (of_camera c) → ⊥)
        → Entry cams name node
    loaded :
        (id : Bytes) (c : Camera)
        → name ≡ file_of id
        → lookup id cams ≡ some c
        → load_entry J name node ≡ camera (normalize c)
        → Entry cams name node

  entry :
      ReadsBack J
      → (cams : List (Bytes × Camera)) (name : Bytes) (node : Node Text) → Fits J cams (name, node)
      → Entry cams name node
  unfolding load_entry parse_camera
  entry B cams name folder fit = skipped refl (λ id c n e. cc)
  entry B cams name unreadable fit = skipped (rw fit refl) (λ id c n e. cc)
  entry B cams name (text t) fit = elim (Bool-cases (has_suffix name (codes ".json"))) [
    | inr other ↦ skipped (rw other refl) (λ id c n e. absurd (
        cc (other, ap (λ x. has_suffix x (codes ".json")) n, has_suffix-append id (codes ".json"))))
    | inl json ↦
        let (id, c, named, known, content) = fit json in
        loaded id c named known (rw json (rw content (rw (B.camera_back c) refl)))
  ]

  insert-Right :
      (cams m : List (Bytes × Camera)) (c : Camera) (j : Bytes)
      → lookup c.id cams ≡ some c
      → (lookup j m ≡ none) ⊎ Right cams m j
      → (bytes_eq j c.id ≡ false × (lookup j (insert c.id (normalize c) m) ≡ lookup j m))
        ⊎ Right cams (insert c.id (normalize c) m) j
  insert-Right cams m c j known before = elim (Bool-cases (bytes_eq j c.id)) [
    | inr other ↦ inl (other, lookup-insert_ne j c.id (normalize c) m other)
    | inl same ↦ inr (
        subst (λ k. lookup k (insert c.id (normalize c) m) ≡ normalized (lookup k cams))
          (sym ((bytes_eq_iff j c.id).0 same))
          (lookup-insert_self c.id (normalize c) m ∙ sym (ap normalized known)))
  ]

  insert-From :
      (cams m : List (Bytes × Camera)) (c : Camera)
      → lookup c.id cams ≡ some c
      → From cams m
      → From cams (insert c.id (normalize c) m)
  insert-From cams m c known from j = elim (insert-Right cams m c j known (from j)) [
    | inr right ↦ inr right
    | inl (other, same) ↦ elim (from j) [
      | inl absent ↦ inl (same ∙ absent)
      | inr right ↦ inr (same ∙ right)
    ]
  ]

  insert-kept :
      (cams m : List (Bytes × Camera)) (c : Camera) (j : Bytes)
      → lookup c.id cams ≡ some c
      → Right cams m j
      → Right cams (insert c.id (normalize c) m) j
  insert-kept cams m c j known right = elim (insert-Right cams m c j known (inr right)) [
    | inr there ↦ there
    | inl (other, same) ↦ same ∙ right
  ]

  pub record LoadsAll (cams : List (Bytes × Camera)) (es : List (Bytes × Node Text))
      (m : List (Bytes × Camera)) (r : Bool × List (Bytes × Camera)) : Type 0 where
    pub came_to_end : r.0 ≡ true
    pub from : From cams r.1
    pub kept : (id : Bytes) → Right cams m id → Right cams r.1 id
    pub found :
        (id : Bytes) (c : Camera)
        → lookup id cams ≡ some c
        → lookup (file_of id) es ≡ some (text (of_camera c))
        → Right cams r.1 id

  pub load_cameras-passed :
      (name : Bytes) (node : Node Text) (es : List (Bytes × Node Text)) (m : List (Bytes × Camera))
      → load_entry J name node ≡ passed
      → load_cameras J ((name, node) ∷ es) m ≡ load_cameras J es m
  unfolding load_cameras
  load_cameras-passed name node es m e = rw (load_cameras, e) refl

  pub load_cameras-camera :
      (name : Bytes) (node : Node Text) (es : List (Bytes × Node Text)) (m : List (Bytes × Camera))
      (c : Camera)
      → load_entry J name node ≡ camera c
      → load_cameras J ((name, node) ∷ es) m ≡ load_cameras J es (insert c.id c m)
  unfolding load_cameras
  load_cameras-camera name node es m c e = rw (load_cameras, e) refl

  module _ (B : ReadsBack J) (cams : List (Bytes × Camera))
      (named : (id : Bytes) (c : Camera) → lookup id cams ≡ some c → c.id ≡ id) where
    pub load_cameras-LoadsAll :
        (es : List (Bytes × Node Text)) (m : List (Bytes × Camera))
        → All (Fits J cams) es
        → From cams m
        → LoadsAll cams es m (load_cameras J es m)
    unfolding lookup load_cameras
    load_cameras-LoadsAll [] m fits from = record {
      came_to_end = refl;
      from = from;
      kept = λ id r. r;
      found = λ id c known there. absurd (cc (there));
    }
    load_cameras-LoadsAll ((name, node) ∷ es) m fits from = elim (entry B cams name node fits.0) [
      | skipped passes never ↦
          let rest = load_cameras-LoadsAll es m fits.1 from in
          rw (load_cameras-passed name node es m passes) (record {
            came_to_end = rest.came_to_end;
            from = rest.from;
            kept = rest.kept;
            found = λ id c known there. elim (Bool-cases (bytes_eq (file_of id) name)) [
              | inl same ↦ absurd (
                  never id c (sym ((bytes_eq_iff (file_of id) name).0 same))
                    (ground (arith, there, same)))
              | inr other ↦ rest.found id c known (ground (arith, there, other))
            ];
          })
      | loaded id c file known loads ↦
          let here : lookup c.id cams ≡ some c =
            subst (λ k. lookup k cams ≡ some c) (sym (named id c known)) known in
          let rest =
            load_cameras-LoadsAll es (insert c.id (normalize c) m) fits.1
              (insert-From cams m c here from) in
          let right : Right cams (load_cameras J es (insert c.id (normalize c) m)).1 id =
            rest.kept id (elim (insert-Right cams m c id here (from id)) [
              | inr there ↦ there
              | inl (other, same) ↦
                  absurd (cc (other, (bytes_eq_iff id c.id).1 (sym (named id c known))))
            ]) in
          rw (load_cameras-camera name node es m (normalize c) loads) (record {
            came_to_end = rest.came_to_end;
            from = rest.from;
            kept = λ j r. rest.kept j (insert-kept cams m c j here r);
            found = λ j d known' there. elim (Bool-cases (bytes_eq (file_of j) name)) [
              | inl same ↦
                  subst (λ k. Right cams (load_cameras J es (insert c.id (normalize c) m)).1 k)
                    (file_of_inj id j (sym file ∙ sym ((bytes_eq_iff (file_of j) name).0 same)))
                    right
              | inr other ↦ rest.found j d known' (ground (arith, there, other))
            ];
          })
    ]
