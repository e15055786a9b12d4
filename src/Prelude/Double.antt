-- ===== src/Prelude/Double.antt =====
-- Go's float64 to the bit, for the one computation of the program where rounding shows: the spacing
-- of thinned images, int(float64(i) * (float64(c) / float64(r))) in thinQueue of
-- internal/queue/queue.go, with c at least r. A double here is mantissa / 2 ^ shift.
use aviationwx_org_bridge.Prelude.{
  ℕ, zero, suc, ◌+◌, ◌-◌, ◌*◌, ◌/◌, ◌%◌, ◌^◌, ◌≡◌, refl, ltb, leb, ◌==◌, if◌then◌else◌,
}

pub record Double : Type 0 where
  pub mantissa : ℕ
  pub shift : ℕ

-- How many binary digits a number has; the fuel is a bound on that.
unfoldable pub bit_length : ℕ → ℕ → ℕ
bit_length zero n = 0
bit_length (suc f) n = let rest = suc (bit_length f (n / 2)) in if n == 0 then 0 else rest

-- a / b rounded to the nearest integer, a tie to the even one.
unfoldable pub round_div : ℕ → ℕ → ℕ
round_div a b =
    if ltb (2 * (a % b)) b
    then a / b
    else if ltb b (2 * (a % b))
    then a / b + 1
    else a / b + a / b % 2

-- float64(c) / float64(r), with 53 bits of mantissa.
unfoldable pub div_double : ℕ → ℕ → Double
unfolding bit_length round_div
div_double c r = record { mantissa = round_div (c * 2 ^ s) r; shift = s }
  where
    s : ℕ
    s = 53 - bit_length 64 (c / r)

-- float64(i) * d, rounded to 53 bits, and truncated.
unfoldable pub mul_trunc : ℕ → Double → ℕ
unfolding bit_length round_div
mul_trunc i d =
    (if leb bits 53 then p else round_div p (2 ^ (bits - 53)) * 2 ^ (bits - 53)) / 2 ^ d.shift
  where
    p : ℕ
    p = i * d.mantissa

    bits : ℕ
    bits = bit_length 128 p

-- 49 * (50 / 49.0) is 50, and 3 * (10 / 3.0) is 10.
round_trip : mul_trunc 49 (div_double 50 49) ≡ 50
unfolding mul_trunc div_double
round_trip = refl

thirds : mul_trunc 3 (div_double 10 3) ≡ 10
unfolding mul_trunc div_double
thirds = refl
