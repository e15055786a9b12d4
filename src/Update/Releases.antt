-- ===== src/Update/Releases.antt =====
-- Which releases the update checker of internal/update/checker.go takes as newer.
use aviationwx_org_bridge.Prelude.{
  ℕ, zero, suc, ◌+◌, ◌-◌, ◌*◌, ◌/◌, ◌%◌, ◌^◌, ◌<◌, ◌≡◌, refl, sym, ap, ◌∙◌, subst, Bool, true,
  false, ◌&&◌, ◌||◌, [], ◌∷◌, ◌++◌, some, arith, if◌then◌else◌, ltb, leb, ◌==◌, Bool-cases, inl,
  inr,
}
use aviationwx_org_bridge.Prelude.Int.{ℤ, pos, ltb_ℤ}
use aviationwx_org_bridge.Files.Bytes.{Bytes, codes, bytes_eq, bytes_eq_iff}
use aviationwx_org_bridge.Files.Decimal.{is_digit, digits, parse_from, parse_from-digits}
use aviationwx_org_bridge.Update.Versions.{
  Version, Reading, set_part, read_byte, read_bytes, last_part, parse_version, compare_part,
  compare_parts, compare_versions, strip_v, is_newer_version,
}

read_bytes-append :
    (xs ys : Bytes) (r : Reading) → read_bytes (xs ++ ys) r ≡ read_bytes ys (read_bytes xs r)
unfolding read_bytes
read_bytes-append [] ys r = refl
read_bytes-append (x ∷ xs) ys r = read_bytes-append xs ys (read_byte x r)

abbrev at : Version → ℕ → ℕ → Reading
at p n i = record { parts = p; current = n; idx = i }

read_byte_digit :
    (c : ℕ) (p : Version) (n i : ℕ)
    → i < 3
    → is_digit c ≡ true
    → read_byte c (at p n i) ≡ at p (n * 10 + (c - b'0')) i
unfolding read_byte
read_byte_digit c p n i h digit = let low : leb 3 i ≡ false = ground arith in rw (low, digit) refl

read_byte_dot :
    (p : Version) (n i : ℕ) → i < 3 → read_byte b'.' (at p n i) ≡ at (set_part i n p) 0 (i + 1)
unfolding read_byte
read_byte_dot p n i h = let low : leb 3 i ≡ false = ground arith in rw low refl

-- Digits are read as parse_from reads them.
read_bytes-digits :
    (cs : Bytes) (p : Version) (n acc i : ℕ)
    → i < 3
    → parse_from acc cs ≡ some n
    → read_bytes cs (at p acc i) ≡ at p n i
unfolding parse_from read_bytes
read_bytes-digits [] p n acc i h e = ap (λ k. at p k i) (ground (arith, e))
read_bytes-digits (c ∷ cs) p n acc i h e = elim (Bool-cases (is_digit c)) [
  | inl digit ↦
      rw (read_byte_digit c p acc i h digit)
        (read_bytes-digits cs p n (acc * 10 + (c - b'0')) i h (ground (arith, e, digit)))
  | inr other ↦ absurd (ground (arith, e, other))
]

-- A version as it is written, with numbers that also an int of 32 bits holds.
abbrev pub written : Version → Bytes
written v = digits 19 v.major ++ (b'.' ∷ (digits 19 v.minor ++ (b'.' ∷ digits 19 v.patch)))

abbrev pub Writable : Version → Type 0
Writable v = (v.major < 2 ^ 31) × (v.minor < 2 ^ 31) × (v.patch < 2 ^ 31)

read_bytes-part :
    (m : ℕ) (rest : Bytes) (p : Version) (i : ℕ)
    → i < 3
    → m < 10 ^ 19
    → read_bytes (digits 19 m ++ (b'.' ∷ rest)) (at p 0 i)
      ≡ read_bytes rest (at (set_part i m p) 0 (i + 1))
unfolding read_bytes
read_bytes-part m rest p i h small =
    rw
      (
        read_bytes-append (digits 19 m) (b'.' ∷ rest) (at p 0 i),
        read_bytes-digits (digits 19 m) p m 0 i h (parse_from-digits 18 m small),
        read_byte_dot p m i h,
      )
      refl

-- parseVersion reads back a version that is written as three decimal numbers below 2 ^ 31 with dots.
pub parse_version-written : (v : Version) → Writable v → parse_version (written v) ≡ v
unfolding parse_version
parse_version-written v (a, b, c) =
    let zeros : Version = record { major = 0; minor = 0; patch = 0 } in
    let one : Version = record zeros { major = v.major } in
    let two : Version = record one { minor = v.minor } in
    ap last_part (
      read_bytes-part v.major (digits 19 v.minor ++ (b'.' ∷ digits 19 v.patch)) zeros 0
        (omega arith) (omega (arith, a))
      ∙ read_bytes-part v.minor (digits 19 v.patch) one 1 (omega arith) (omega (arith, b))
      ∙ read_bytes-digits (digits 19 v.patch) two v.patch 0 2 (omega arith)
          (parse_from-digits 18 v.patch (omega (arith, c))))

-- The order of versions.
unfoldable pub precedes : Version → Version → Bool
precedes v w =
    ltb v.major w.major
    || (v.major == w.major && (ltb v.minor w.minor || (v.minor == w.minor && ltb v.patch w.patch)))

compare_part-precedes :
    (a b : ℕ) (later : ℤ)
    → ltb_ℤ (pos 0) (compare_part b a later) ≡ (ltb a b || (a == b && ltb_ℤ (pos 0) later))
compare_part-precedes a b later = ground arith

compare_parts-precedes : (v w : Version) → ltb_ℤ (pos 0) (compare_parts w v) ≡ precedes v w
unfolding precedes
compare_parts-precedes v w =
    let patches = compare_part w.patch v.patch (pos 0) in
    let last : ltb_ℤ (pos 0) patches ≡ ltb v.patch w.patch = ground arith in
    compare_part-precedes v.major w.major (compare_part w.minor v.minor patches)
    ∙ ap (λ b. ltb v.major w.major || (v.major == w.major && b))
        (compare_part-precedes v.minor w.minor patches
          ∙ ap (λ b. ltb v.minor w.minor || (v.minor == w.minor && b)) last)

-- A written version begins with a digit.
FirstIsDigit : Bytes → Type 0
FirstIsDigit [] = ⊥
FirstIsDigit (c ∷ cs) = is_digit c ≡ true

FirstIsDigit-append : (xs ys : Bytes) → FirstIsDigit xs → FirstIsDigit (xs ++ ys)
unfolding FirstIsDigit
FirstIsDigit-append [] ys h = absurd h
FirstIsDigit-append (x ∷ xs) ys h = h

digits-FirstIsDigit : (f n : ℕ) → FirstIsDigit (digits (suc f) n)
unfolding FirstIsDigit digits
digits-FirstIsDigit zero n = elim (Bool-cases (ltb n 10)) [
  | inl small ↦ rw small (ground arith)
  | inr large ↦ rw large (ground arith)
]
digits-FirstIsDigit (suc k) n = elim (Bool-cases (ltb n 10)) [
  | inl small ↦ rw small (ground arith)
  | inr large ↦ rw large (
      FirstIsDigit-append (digits (suc k) (n / 10)) ((b'0' + n % 10) ∷ [])
        (digits-FirstIsDigit k (n / 10)))
]

strip_v-v : (b : Bytes) → strip_v (b'v' ∷ b) ≡ b
unfolding strip_v
strip_v-v b = refl

strip_v-FirstIsDigit : (b : Bytes) → FirstIsDigit b → strip_v b ≡ b
unfolding strip_v FirstIsDigit
strip_v-FirstIsDigit [] h = absurd h
strip_v-FirstIsDigit (c ∷ cs) h = ground (arith, h)

released-FirstIsDigit :
    (b : Bytes) → FirstIsDigit b → (bytes_eq b (codes "dev") || bytes_eq b []) ≡ false
unfolding FirstIsDigit bytes_eq
released-FirstIsDigit [] h = absurd h
released-FirstIsDigit (c ∷ cs) h = ground (arith, h)

precedes_irrefl : (v : Version) → precedes v v ≡ false
unfolding precedes
precedes_irrefl v = ground arith

-- Texts that are equal have equal versions, of which neither precedes the other.
newer-written :
    (v w : Version)
    → Writable v
    → Writable w
    → (if bytes_eq (written v) (written w)
        then false
        else ltb_ℤ (pos 0) (compare_versions (written w) (written v)))
      ≡ precedes v w
unfolding compare_versions
newer-written v w hv hw = elim (Bool-cases (bytes_eq (written v) (written w))) [
  | inr other ↦ rw other (
      ap (λ x. ltb_ℤ (pos 0) (compare_parts x (parse_version (written v))))
        (parse_version-written w hw)
      ∙ ap (λ x. ltb_ℤ (pos 0) (compare_parts w x)) (parse_version-written v hv)
      ∙ compare_parts-precedes v w)
  | inl same ↦
      let equal : v ≡ w =
        sym (parse_version-written v hv)
        ∙ ap parse_version ((bytes_eq_iff (written v) (written w)).0 same)
        ∙ parse_version-written w hw in
      rw same (sym (subst (λ x. precedes v x ≡ false) equal (precedes_irrefl v)))
]

-- A release whose tag is a version of three numbers below 2 ^ 31, with or without the letter v before
-- it, is newer than a current version of that form exactly if the current version precedes it in the
-- order of major, minor and patch number.
pub is_newer_version-precedes :
    (v w : Version)
    → Writable v
    → Writable w
    → (is_newer_version (written v) (written w) ≡ precedes v w)
      × (is_newer_version (written v) (b'v' ∷ written w) ≡ precedes v w)
unfolding is_newer_version
is_newer_version-precedes v w hv hw =
    let first : (u : Version) → FirstIsDigit (written u) = λ u.
      FirstIsDigit-append (digits 19 u.major)
        (b'.' ∷ (digits 19 u.minor ++ (b'.' ∷ digits 19 u.patch)))
        (digits-FirstIsDigit 18 u.major) in
    rw
      (
        released-FirstIsDigit (written v) (first v),
        strip_v-FirstIsDigit (written v) (first v),
        strip_v-FirstIsDigit (written w) (first w),
        strip_v-v (written w),
      )
      (newer-written v w hv hw, newer-written v w hv hw)
