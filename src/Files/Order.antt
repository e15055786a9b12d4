-- ===== src/Files/Order.antt =====
-- The order of file names is the order of their numbers, at one number of digits.
use native.Mathlib.Nat.{pow-suc, mul-le-mul_right}
use aviationwx_org_bridge.Prelude.{
  ℕ, ◌+◌, ◌-◌, ◌*◌, ◌^◌, ◌≤◌, ◌<◌, ◌≡◌, refl, [], ◌∷◌, ◌++◌, some, arith, ltb, length, false,
}
use aviationwx_org_bridge.Files.Bytes.{Bytes, bytes_lt}
use aviationwx_org_bridge.Files.Decimal.{parse_from}

-- A digit was read, and then the rest.
parse_from-cons :
    (c : ℕ) (cs : Bytes) (acc v : ℕ)
    → parse_from acc (c ∷ cs) ≡ some v
    → (d : ℕ) × (d < 10) × (c ≡ b'0' + d) × (parse_from (acc * 10 + d) cs ≡ some v)
unfolding parse_from
parse_from-cons c cs acc v h = (c - b'0', ground arith, ground arith, ground arith)

shift_bounds :
    (acc d p v : ℕ)
    → d < 10
    → (acc * 10 + d) * p ≤ v
    → v < (acc * 10 + d + 1) * p
    → (acc * (p * 10) ≤ v) × (v < (acc + 1) * (p * 10))
shift_bounds acc d p v h lo hi =
    let m : (d + 1) * p ≤ 10 * p = mul-le-mul_right p (omega arith) in omega (arith, m)

-- Digits read after `acc` add to it a number below a power of ten.
parse_from_bounds :
    (cs : Bytes) (acc v : ℕ)
    → parse_from acc cs ≡ some v
    → (acc * 10 ^ length cs ≤ v) × (v < (acc + 1) * 10 ^ length cs)
parse_from_bounds [] acc v h = unfold parse_from in ground arith
parse_from_bounds (c ∷ cs) acc v h =
    let (d, small, _, rest) = parse_from-cons c cs acc v h in
    let ih = parse_from_bounds cs (acc * 10 + d) v rest in
    rw pow-suc (shift_bounds acc d (10 ^ length cs) v small ih.0 ih.1)

bytes_lt_refl : (t : Bytes) → bytes_lt t t ≡ false
unfolding bytes_lt
bytes_lt_refl [] = refl
bytes_lt_refl (x ∷ t) = ground (arith, bytes_lt_refl t)

-- A smaller leading digit makes the smaller number.
leading_lt :
    (acc d d' p m n : ℕ) → d < d' → m < (acc * 10 + d + 1) * p → (acc * 10 + d') * p ≤ n → m < n
leading_lt acc d d' p m n h hi lo =
    let q : (acc * 10 + d + 1) * p ≤ (acc * 10 + d') * p = mul-le-mul_right p (omega arith) in
    omega (arith, q)

-- Two texts of equally many digits are ordered as their numbers are.
pub bytes_lt-parse_from :
    (xs ys t : Bytes) (acc m n : ℕ)
    → length xs ≡ length ys
    → parse_from acc xs ≡ some m
    → parse_from acc ys ≡ some n
    → bytes_lt (xs ++ t) (ys ++ t) ≡ ltb m n
unfolding bytes_lt
bytes_lt-parse_from [] [] t acc m n e p q = unfold parse_from in ground (arith, bytes_lt_refl t)
bytes_lt-parse_from [] (y ∷ ys) t acc m n e p q = absurd (omega arith)
bytes_lt-parse_from (x ∷ xs) [] t acc m n e p q = absurd (omega arith)
bytes_lt-parse_from (x ∷ xs) (y ∷ ys) t acc m n e p q =
    let (d, _, ex, rx) = parse_from-cons x xs acc m p in
    let (d', _, ey, ry) = parse_from-cons y ys acc n q in
    let bx = parse_from_bounds xs (acc * 10 + d) m rx in
    let by = parse_from_bounds ys (acc * 10 + d') n ry in
    let el : length ys ≡ length xs = omega arith in
    let by' = rw el at by in
    ground (
      arith,
      ex,
      ey,
      leading_lt acc d d' (10 ^ length xs) m n,
      leading_lt acc d' d (10 ^ length xs) n m,
      bytes_lt-parse_from xs ys t (acc * 10 + d) m n,
      bx,
      by',
    )
