-- ===== src/Files/Maps.antt =====
-- Maps and sets of byte strings, as lists: Go's map[string]T and map[string]bool.
use aviationwx_org_bridge.Prelude.{
  ℕ, suc, ◌+◌, ◌≡◌, refl, sym, ◌∙◌, ◌⊎◌, inl, inr, Bool, true, false, List, [], ◌∷◌, ◌++◌, Option,
  none, some, arith, if◌then◌else◌, Bool-cases, subst, All,
}
use aviationwx_org_bridge.Files.Bytes.{Bytes, bytes_eq, bytes_eq_iff, bytes_eq_refl}

module _ {ℓ} {A : Type ℓ} where
  unfoldable pub lookup : Bytes → List (Bytes × A) → Option A
  lookup k [] = none
  lookup k ((j, v) ∷ m) = if bytes_eq k j then some v else lookup k m

  unfoldable pub erase : Bytes → List (Bytes × A) → List (Bytes × A)
  erase k [] = []
  erase k ((j, v) ∷ m) = if bytes_eq k j then erase k m else (j, v) ∷ erase k m

  abbrev pub insert : Bytes → A → List (Bytes × A) → List (Bytes × A)
  insert k v m = (k, v) ∷ erase k m

  pub lookup-erase_self : (k : Bytes) (m : List (Bytes × A)) → lookup k (erase k m) ≡ none
  unfolding lookup erase
  lookup-erase_self k [] = refl
  lookup-erase_self k ((j, v) ∷ m) = ground (arith, lookup-erase_self k m)

  pub lookup-erase_ne :
      (i k : Bytes) (m : List (Bytes × A))
      → bytes_eq i k ≡ false
      → lookup i (erase k m) ≡ lookup i m
  unfolding lookup erase
  lookup-erase_ne i k [] h = refl
  lookup-erase_ne i k ((j, v) ∷ m) h = elim (Bool-cases (bytes_eq k j)) [
    | inr other ↦ rw other (ground (arith, lookup-erase_ne i k m h))
    | inl same ↦
        let e : bytes_eq i j ≡ false =
          subst (λ x. bytes_eq i x ≡ false) ((bytes_eq_iff k j).0 same) h in
        rw (same, e) (lookup-erase_ne i k m h)
  ]

  pub lookup-insert_self :
      (k : Bytes) (v : A) (m : List (Bytes × A)) → lookup k (insert k v m) ≡ some v
  unfolding lookup
  lookup-insert_self k v m = rw (bytes_eq_refl k) refl

  pub lookup-insert_ne :
      (i k : Bytes) (v : A) (m : List (Bytes × A))
      → bytes_eq i k ≡ false
      → lookup i (insert k v m) ≡ lookup i m
  unfolding lookup
  lookup-insert_ne i k v m h = rw h (lookup-erase_ne i k m h)

-- What a lookup can find after an insertion and after a removal.
module _ {ℓ} {A : Type ℓ} where
  pub lookup-insert_inv :
      (j k : Bytes) (v d : A) (m : List (Bytes × A))
      → lookup j (insert k v m) ≡ some d
      → ((k ≡ j) × (v ≡ d)) ⊎ ((bytes_eq j k ≡ false) × (lookup j m ≡ some d))
  lookup-insert_inv j k v d m h = elim (Bool-cases (bytes_eq j k)) [
    | inr other ↦ inr (other, sym (lookup-insert_ne j k v m other) ∙ h)
    | inl same ↦
        let e : j ≡ k = (bytes_eq_iff j k).0 same in
        let found : lookup j (insert k v m) ≡ some v =
          subst (λ x. lookup x (insert k v m) ≡ some v) (sym e) (lookup-insert_self k v m) in
        inl (sym e, cc (found, h))
  ]

  pub lookup-erase_inv :
      (j k : Bytes) (d : A) (m : List (Bytes × A))
      → lookup j (erase k m) ≡ some d
      → (bytes_eq j k ≡ false) × (lookup j m ≡ some d)
  lookup-erase_inv j k d m h = elim (Bool-cases (bytes_eq j k)) [
    | inr other ↦ (other, sym (lookup-erase_ne j k m other) ∙ h)
    | inl same ↦
        let gone : lookup j (erase k m) ≡ none =
          subst (λ x. lookup x (erase k m) ≡ none) (sym ((bytes_eq_iff j k).0 same))
            (lookup-erase_self k m) in
        absurd (cc (gone, h))
  ]

-- How often a key is in a list.
unfoldable pub occurrences : Bytes → List Bytes → ℕ
occurrences p [] = 0
occurrences p (x ∷ xs) = let rest = occurrences p xs in if bytes_eq p x then suc rest else rest

-- if set[key], and delete(set, key).
unfoldable pub contains_key : Bytes → List Bytes → Bool
contains_key p [] = false
contains_key p (x ∷ xs) = if bytes_eq p x then true else contains_key p xs

unfoldable pub delete : Bytes → List Bytes → List Bytes
delete p [] = []
delete p (x ∷ xs) = if bytes_eq p x then delete p xs else x ∷ delete p xs

pub occurrences-append :
    (p : Bytes) (xs ys : List Bytes)
    → occurrences p (xs ++ ys) ≡ occurrences p xs + occurrences p ys
unfolding occurrences
occurrences-append p [] ys = omega arith
occurrences-append p (x ∷ xs) ys = ground (arith, occurrences-append p xs ys)

pub occurrences-contains_key :
    (p : Bytes) (xs : List Bytes) → contains_key p xs ≡ false → occurrences p xs ≡ 0
unfolding occurrences contains_key
occurrences-contains_key p [] h = refl
occurrences-contains_key p (x ∷ xs) h = ground (arith, occurrences-contains_key p xs)

pub occurrences-delete_self : (p : Bytes) (xs : List Bytes) → occurrences p (delete p xs) ≡ 0
unfolding occurrences delete
occurrences-delete_self p [] = refl
occurrences-delete_self p (x ∷ xs) = ground (arith, occurrences-delete_self p xs)

pub occurrences-delete_ne :
    (p r : Bytes) (xs : List Bytes)
    → bytes_eq p r ≡ false
    → occurrences p (delete r xs) ≡ occurrences p xs
unfolding occurrences delete
occurrences-delete_ne p r [] h = refl
occurrences-delete_ne p r (x ∷ xs) h = elim (Bool-cases (bytes_eq r x)) [
  | inr other ↦ rw other (ground (arith, occurrences-delete_ne p r xs h))
  | inl same ↦
      let e : bytes_eq p x ≡ false =
        subst (λ y. bytes_eq p y ≡ false) ((bytes_eq_iff r x).0 same) h in
      rw (same, e) (occurrences-delete_ne p r xs h)
]

pub occurrences-delete :
    (p r : Bytes) (xs : List Bytes)
    → occurrences p (delete r xs) ≡ (if bytes_eq p r then 0 else occurrences p xs)
occurrences-delete p r xs = elim (Bool-cases (bytes_eq p r)) [
  | inr other ↦ rw other (occurrences-delete_ne p r xs other)
  | inl same ↦ rw same (
      subst (λ y. occurrences y (delete r xs) ≡ 0) (sym ((bytes_eq_iff p r).0 same))
        (occurrences-delete_self r xs))
]

-- A key that is not in a set does not occur under any spelling that equals it.
pub occurrences_absent :
    (p r : Bytes) (xs : List Bytes)
    → contains_key r xs ≡ false
    → bytes_eq p r ≡ true
    → occurrences p xs ≡ 0
occurrences_absent p r xs h same =
    subst (λ y. occurrences y xs ≡ 0) (sym ((bytes_eq_iff p r).0 same))
      (occurrences-contains_key r xs h)

-- The laws of lookups with a test.
module _ {ℓ} {A : Type ℓ} where
  pub lookup-insert :
      (j k : Bytes) (v : A) (m : List (Bytes × A))
      → lookup j (insert k v m) ≡ (if bytes_eq j k then some v else lookup j m)
  lookup-insert j k v m = elim (Bool-cases (bytes_eq j k)) [
    | inl same ↦ rw same (
        subst (λ x. lookup x (insert k v m) ≡ some v) (sym ((bytes_eq_iff j k).0 same))
          (lookup-insert_self k v m))
    | inr other ↦ lookup-insert_ne j k v m other ∙ rw other refl
  ]

  pub lookup-erase :
      (j k : Bytes) (m : List (Bytes × A))
      → lookup j (erase k m) ≡ (if bytes_eq j k then none else lookup j m)
  lookup-erase j k m = elim (Bool-cases (bytes_eq j k)) [
    | inl same ↦ rw same (
        subst (λ x. lookup x (erase k m) ≡ none) (sym ((bytes_eq_iff j k).0 same))
          (lookup-erase_self k m))
    | inr other ↦ lookup-erase_ne j k m other ∙ rw other refl
  ]

module _ {ℓ} {A : Type ℓ} where
  pub All-erase {κ} :
      (P : Bytes × A → Type κ) (k : Bytes) (m : List (Bytes × A)) → All P m → All P (erase k m)
  unfolding erase
  All-erase P k [] a = tt
  All-erase P k ((j, v) ∷ m) a = elim (Bool-cases (bytes_eq k j)) [
    | inl same ↦ rw same (All-erase P k m a.1)
    | inr other ↦ rw other (a.0, All-erase P k m a.1)
  ]
