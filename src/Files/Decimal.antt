-- ===== src/Files/Decimal.antt =====
-- fmt.Sprintf("%d") and strconv.ParseInt(s, 10, 64), and the round trip between them.
use native.Mathlib.Nat.{pow-suc, one-le-pow}
use aviationwx_org_bridge.Prelude.{
  ℕ, zero, suc, ◌+◌, ◌-◌, ◌*◌, ◌/◌, ◌%◌, ◌^◌, ◌≤◌, ◌<◌, ◌≡◌, Bool, ◌&&◌, [], ◌∷◌, ◌++◌, Option,
  none, some, arith, ltb, leb, ◌==◌, if◌then◌else◌, length, length-append, Bool-cases, inl, inr,
}
use aviationwx_org_bridge.Prelude.Int.{ℤ, pos, negsuc}
use aviationwx_org_bridge.Files.Bytes.{Bytes}

-- The decimal digits of a number, most significant first; the fuel bounds how many.
unfoldable pub digits : ℕ → ℕ → Bytes
digits zero n = []
digits (suc f) n =
    let rest = digits f (n / 10) ++ (b'0' + n % 10) ∷ [] in
    if ltb n 10 then (b'0' + n) ∷ [] else rest

-- An int64 has at most 19 digits.
unfoldable pub show_int : ℤ → Bytes
show_int (pos n) = digits 19 n
show_int (negsuc n) = b'-' ∷ digits 19 (suc n)

abbrev pub is_digit : ℕ → Bool
is_digit c = leb b'0' c && leb c b'9'

-- `none` at the first byte that is no digit.
unfoldable pub parse_from : ℕ → Bytes → Option ℕ
parse_from acc [] = some acc
parse_from acc (c ∷ cs) = if is_digit c then parse_from (acc * 10 + (c - b'0')) cs else none

-- At least one digit.
parse_digits : Bytes → Option ℕ
unfolding parse_from
parse_digits [] = none
parse_digits (c ∷ cs) = parse_from 0 (c ∷ cs)

-- A magnitude within the range of int64.
pos_in_range : Option ℕ → Option ℤ
pos_in_range none = none
pos_in_range (some n) = if ltb n (2 ^ 63) then some (pos n) else none

neg_in_range : Option ℕ → Option ℤ
neg_in_range none = none
neg_in_range (some zero) = some (pos 0)
neg_in_range (some (suc n)) = if ltb n (2 ^ 63) then some (negsuc n) else none

-- An optional sign, and digits.
unfoldable pub parse_int : Bytes → Option ℤ
unfolding parse_digits pos_in_range neg_in_range
parse_int [] = none
parse_int (c ∷ cs) =
    if c == b'-'
    then neg_in_range (parse_digits cs)
    else if c == b'+'
    then pos_in_range (parse_digits cs)
    else pos_in_range (parse_digits (c ∷ cs))

abbrev snoc_digit : Option ℕ → ℕ → Option ℕ
snoc_digit none d = none
snoc_digit (some v) d = some (v * 10 + d)

parse_from-snoc :
    (acc : ℕ) (cs : Bytes) (d : ℕ)
    → d < 10
    → parse_from acc (cs ++ (b'0' + d) ∷ []) ≡ snoc_digit (parse_from acc cs) d
unfolding parse_from
parse_from-snoc acc [] d h = ground arith
parse_from-snoc acc (c ∷ cs) d h = ground (arith, parse_from-snoc (acc * 10 + (c - b'0')) cs d h)

digit_shift : (f n : ℕ) → n < 10 ^ suc f → n / 10 < 10 ^ f
digit_shift f n h = let e : n < 10 ^ f * 10 = rw pow-suc at h in omega arith

-- Reading the digits of a number gives the number back.
pub parse_from-digits : (f n : ℕ) → n < 10 ^ suc f → parse_from 0 (digits (suc f) n) ≡ some n
unfolding digits
parse_from-digits zero n h = unfold parse_from in ground arith
parse_from-digits (suc f) n h = elim (Bool-cases (ltb n 10)) [
  | inl small ↦ rw small (unfold parse_from in ground arith)
  | inr large ↦
      rw
        (
          large,
          parse_from-snoc 0 (digits (suc f) (n / 10)) (n % 10) (omega arith),
          parse_from-digits f (n / 10) (digit_shift (suc f) n h),
        )
        (ground arith)
]

-- A number from 10 ^ k up to 10 ^ (k + 1) has k + 1 digits.
pub length-digits :
    (f k n : ℕ) → k ≤ f → 10 ^ k ≤ n → n < 10 ^ suc k → length (digits (suc f) n) ≡ suc k
unfolding digits
length-digits f zero n hk lo hi = ground arith
length-digits zero (suc k) n hk lo hi = absurd (omega arith)
length-digits (suc f) (suc k) n hk lo hi =
    let lo' : 10 ^ k * 10 ≤ n = rw pow-suc at lo in
    let big : 10 ≤ n = omega (arith, one-le-pow k 10 (omega arith)) in
    let ih = length-digits f k (n / 10) (omega arith) (omega arith) (digit_shift (suc k) n hi) in
    ground (arith, big, ih, length-append (digits (suc f) (n / 10)) ((b'0' + n % 10) ∷ []))

-- A text of digits is read as what the digits stand for.
pub parse_int-parse_from :
    (cs : Bytes) (v : ℕ)
    → 0 < length cs
    → parse_from 0 cs ≡ some v
    → v < 2 ^ 63
    → parse_int cs ≡ some (pos v)
unfolding parse_int parse_from
parse_int-parse_from [] v l p h = elim l [ ]
parse_int-parse_from (c ∷ cs) v l p h = ground arith

length-digits-pos : (f n : ℕ) → 0 < length (digits (suc f) n)
unfolding digits
length-digits-pos f n = ground (arith, length-append (digits f (n / 10)) ((b'0' + n % 10) ∷ []))

-- What is printed for an int64 that is not negative is read back.
pub parse_int-show_int : (n : ℕ) → n < 2 ^ 63 → parse_int (show_int (pos n)) ≡ some (pos n)
unfolding show_int
parse_int-show_int n h =
    parse_int-parse_from (digits 19 n) n (length-digits-pos 18 n)
      (parse_from-digits 18 n (omega arith)) h
