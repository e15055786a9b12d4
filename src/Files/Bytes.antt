-- ===== src/Files/Bytes.antt =====
-- Byte strings: Go's `==` and `<` on strings, strings.HasSuffix and strings.TrimSuffix.
use Prim.Native.Char.{code}
use Prim.Native.String.{String}
use aviationwx_org_bridge.Prelude.{
  ℕ, ◌-◌, ◌≡◌, refl, ◌↔◌, Bool, true, false, ◌&&◌, List, [], ◌∷◌, ◌++◌, arith, ltb, ◌==◌,
  if◌then◌else◌, length, take, drop, length-append,
}

abbrev pub Bytes : Type 0
Bytes = List ℕ

-- The bytes of an ASCII literal. `String` has its own `[]` and `∷`.
abbrev pub codes : String → Bytes
codes String.[] = []
codes (String.◌∷◌ c s) = code c ∷ codes s

unfoldable pub bytes_eq : Bytes → Bytes → Bool
bytes_eq [] [] = true
bytes_eq [] (y ∷ ys) = false
bytes_eq (x ∷ xs) [] = false
bytes_eq (x ∷ xs) (y ∷ ys) = x == y && bytes_eq xs ys

-- The order of strings: byte by byte, a proper prefix first.
unfoldable pub bytes_lt : Bytes → Bytes → Bool
bytes_lt [] [] = false
bytes_lt [] (y ∷ ys) = true
bytes_lt (x ∷ xs) [] = false
bytes_lt (x ∷ xs) (y ∷ ys) = if ltb x y then true else if ltb y x then false else bytes_lt xs ys

unfoldable pub has_suffix : Bytes → Bytes → Bool
has_suffix xs s = bytes_eq (drop (length xs - length s) xs) s

unfoldable pub trim_suffix : Bytes → Bytes → Bytes
trim_suffix xs s = if has_suffix xs s then take (length xs - length s) xs else xs

pub bytes_eq_iff : (xs ys : Bytes) → (bytes_eq xs ys ≡ true) ↔ (xs ≡ ys)
unfolding bytes_eq
bytes_eq_iff [] [] = (λ _. refl, λ _. refl)
bytes_eq_iff [] (y ∷ ys) = (λ h. cc, λ h. cc)
bytes_eq_iff (x ∷ xs) [] = (λ h. cc, λ h. cc)
bytes_eq_iff (x ∷ xs) (y ∷ ys) =
    (λ h. ground (arith, bytes_eq_iff xs ys), λ h. ground (arith, bytes_eq_iff xs ys))

pub bytes_eq_refl : (xs : Bytes) → bytes_eq xs xs ≡ true
bytes_eq_refl xs = (bytes_eq_iff xs xs).1 refl

drop_append : (n : ℕ) (xs ys : Bytes) → n ≡ length xs → drop n (xs ++ ys) ≡ ys
drop_append n [] ys h = ground arith
drop_append n (x ∷ xs) ys h = ground (arith, drop_append (length xs) xs ys refl)

take_append : (n : ℕ) (xs ys : Bytes) → n ≡ length xs → take n (xs ++ ys) ≡ xs
take_append n [] ys h = ground arith
take_append n (x ∷ xs) ys h = ground (arith, take_append (length xs) xs ys refl)

pub has_suffix-append : (xs s : Bytes) → has_suffix (xs ++ s) s ≡ true
unfolding has_suffix
has_suffix-append xs s =
    let e : length (xs ++ s) - length s ≡ length xs = omega (arith, length-append xs s) in
    ground (arith, e, drop_append (length xs) xs s refl, bytes_eq_refl s)

pub trim_suffix-append : (xs s : Bytes) → trim_suffix (xs ++ s) s ≡ xs
unfolding trim_suffix
trim_suffix-append xs s =
    let e : length (xs ++ s) - length s ≡ length xs = omega (arith, length-append xs s) in
    ground (arith, e, has_suffix-append xs s, take_append (length xs) xs s refl)

-- Another ending of the same length is compared with the one that is there.
pub has_suffix_other :
    (xs s t : Bytes) → length s ≡ length t → has_suffix (xs ++ s) t ≡ bytes_eq s t
unfolding has_suffix
has_suffix_other xs s t h =
    let e : length (xs ++ s) - length t ≡ length xs = omega (arith, length-append xs s) in
    ground (arith, e, drop_append (length xs) xs s refl)

pub bytes_eq_sym : (xs ys : Bytes) → bytes_eq xs ys ≡ false → bytes_eq ys xs ≡ false
unfolding bytes_eq
bytes_eq_sym [] [] h = h
bytes_eq_sym [] (y ∷ ys) h = refl
bytes_eq_sym (x ∷ xs) [] h = refl
bytes_eq_sym (x ∷ xs) (y ∷ ys) h = ground (arith, bytes_eq_sym xs ys)
