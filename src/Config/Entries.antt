-- ===== src/Config/Entries.antt =====
-- The names of the camera files, and what writes and removals leave of their directory.
use mathlib.Core.List.{append_assoc}
use aviationwx_org_bridge.Prelude.{
  ◌≡◌, refl, sym, ap, ◌∙◌, inl, inr, true, false, List, [], ◌∷◌, ◌++◌, none, some, arith,
  Bool-cases, All,
}
use aviationwx_org_bridge.Files.Bytes.{
  Bytes, codes, bytes_eq, bytes_eq_iff, bytes_eq_refl, bytes_lt, has_suffix, has_suffix_other,
  trim_suffix, trim_suffix-append,
}
use aviationwx_org_bridge.Files.Maps.{lookup, erase, lookup-erase_self, lookup-erase_ne}
use aviationwx_org_bridge.Config.Store.{Node, file_of, backup_of, place, put}

pub file_of_inj : (a b : Bytes) → file_of a ≡ file_of b → a ≡ b
file_of_inj a b names =
    sym (trim_suffix-append a (codes ".json"))
    ∙ ap (λ n. trim_suffix n (codes ".json")) names
    ∙ trim_suffix-append b (codes ".json")

pub file_of_ne : (a b : Bytes) → bytes_eq a b ≡ false → bytes_eq (file_of a) (file_of b) ≡ false
file_of_ne a b h = elim (Bool-cases (bytes_eq (file_of a) (file_of b))) [
  | inr other ↦ other
  | inl same ↦
      let ids : a ≡ b = file_of_inj a b ((bytes_eq_iff (file_of a) (file_of b)).0 same) in
      absurd (cc (h, (bytes_eq_iff a b).1 ids))
]

pub backup-Json : (n : Bytes) → has_suffix (backup_of (file_of n)) (codes ".json") ≡ false
unfolding bytes_eq
backup-Json n =
    let e : backup_of (file_of n) ≡ (n ++ codes ".jso") ++ codes "n.bak" =
      append_assoc n (codes ".json") (codes ".bak")
      ∙ sym (append_assoc n (codes ".jso") (codes "n.bak")) in
    rw e (has_suffix_other (n ++ codes ".jso") (codes "n.bak") (codes ".json") refl)

-- A name that ends in .json is not that of a backup.
pub json_ne_backup :
    (i n : Bytes) → has_suffix i (codes ".json") ≡ true → bytes_eq i (backup_of (file_of n)) ≡ false
json_ne_backup i n h = elim (Bool-cases (bytes_eq i (backup_of (file_of n)))) [
  | inr other ↦ other
  | inl same ↦
      let e : i ≡ backup_of (file_of n) = (bytes_eq_iff i (backup_of (file_of n))).0 same in
      absurd (cc (h, backup-Json n, ap (λ x. has_suffix x (codes ".json")) e))
]

module _ {T : Type 0} where
  lookup-place_ne :
      (i n : Bytes) (v : Node T) (es : List (Bytes × Node T))
      → bytes_eq i n ≡ false
      → lookup i (place n v es) ≡ lookup i es
  unfolding lookup place
  lookup-place_ne i n v [] h = rw h
  lookup-place_ne i n v ((m, w) ∷ es) h = elim (Bool-cases (bytes_lt m n)) [
    | inl after ↦ rw after (ground (arith, lookup-place_ne i n v es h))
    | inr before ↦ rw (before, h) refl
  ]

  lookup-place_self :
      (n : Bytes) (v : Node T) (es : List (Bytes × Node T))
      → lookup n es ≡ none
      → lookup n (place n v es) ≡ some v
  unfolding lookup place
  lookup-place_self n v [] h = rw (bytes_eq_refl n)
  lookup-place_self n v ((m, w) ∷ es) h = elim (Bool-cases (bytes_lt m n)) [
    | inl after ↦ rw after (elim (Bool-cases (bytes_eq n m)) [
      | inl same ↦ absurd (ground (arith, h, same))
      | inr other ↦ rw other (lookup-place_self n v es (ground (arith, h, other)))
    ])
    | inr before ↦ rw (before, bytes_eq_refl n) refl
  ]

  pub lookup-put_self :
      (n : Bytes) (v : Node T) (es : List (Bytes × Node T)) → lookup n (put n v es) ≡ some v
  unfolding put
  lookup-put_self n v es = lookup-place_self n v (erase n es) (lookup-erase_self n es)

  pub lookup-put_ne :
      (i n : Bytes) (v : Node T) (es : List (Bytes × Node T))
      → bytes_eq i n ≡ false
      → lookup i (put n v es) ≡ lookup i es
  unfolding put
  lookup-put_ne i n v es h = lookup-place_ne i n v (erase n es) h ∙ lookup-erase_ne i n es h

  -- What holds of all entries holds of those with other names, after a change that may break it at
  -- one name.
  pub All-erase {κ} :
      (P Q : Bytes × Node T → Type κ) (n : Bytes) (es : List (Bytes × Node T))
      → ((m : Bytes) (w : Node T) → bytes_eq n m ≡ false → P (m, w) → Q (m, w))
      → All P es
      → All Q (erase n es)
  unfolding erase
  All-erase P Q n [] keep a = tt
  All-erase P Q n ((m, w) ∷ es) keep a = elim (Bool-cases (bytes_eq n m)) [
    | inl same ↦ rw same (All-erase P Q n es keep a.1)
    | inr other ↦ rw other (keep m w other a.0, All-erase P Q n es keep a.1)
  ]

  All-place {κ} :
      (Q : Bytes × Node T → Type κ) (n : Bytes) (v : Node T) (es : List (Bytes × Node T))
      → Q (n, v)
      → All Q es
      → All Q (place n v es)
  unfolding place
  All-place Q n v [] q a = (q, tt)
  All-place Q n v ((m, w) ∷ es) q a = elim (Bool-cases (bytes_lt m n)) [
    | inl after ↦ rw after (a.0, All-place Q n v es q a.1)
    | inr before ↦ rw before (q, a)
  ]

  pub All-put {κ} :
      (P Q : Bytes × Node T → Type κ) (n : Bytes) (v : Node T) (es : List (Bytes × Node T))
      → Q (n, v)
      → ((m : Bytes) (w : Node T) → bytes_eq n m ≡ false → P (m, w) → Q (m, w))
      → All P es
      → All Q (put n v es)
  unfolding put
  All-put P Q n v es q keep a = All-place Q n v (erase n es) q (All-erase P Q n es keep a)
