-- ===== src/Prelude/Ratio.antt =====
-- Go's float64 where the program compares or scales counts by it: exact fractions. The counts and
-- thresholds involved are far below 2 ^ 53, two of these fractions that differ do so by more than
-- the rounding of a double, and a count times 0.3, 0.4, 0.5, 0.6 or 0.8 truncates as the exact
-- product does; so the tests and truncations are those of the program.
use aviationwx_org_bridge.Prelude.{ℕ, ◌+◌, ◌*◌, ◌/◌, Bool, ltb, leb}
use aviationwx_org_bridge.Prelude.Int.{ℤ, pos, pos_part, neg_part}

-- A numerator over a positive denominator.
pub record Ratio : Type 0 where
  pub num : ℤ
  pub den : ℕ

-- n / d, for a literal.
abbrev pub ratio : ℕ → ℕ → Ratio
ratio n d = record { num = pos n; den = d }

-- The sides of a comparison, as numbers.
abbrev pub left_side : Ratio → Ratio → ℕ
left_side a b = pos_part a.num * b.den + neg_part b.num * a.den

abbrev pub right_side : Ratio → Ratio → ℕ
right_side a b = pos_part b.num * a.den + neg_part a.num * b.den

abbrev pub ratio_lt : Ratio → Ratio → Bool
ratio_lt a b = ltb (left_side a b) (right_side a b)

abbrev pub ratio_le : Ratio → Ratio → Bool
ratio_le a b = leb (left_side a b) (right_side a b)

-- int(float64(n) * r), for a ratio that is not negative.
unfoldable pub scale : ℕ → Ratio → ℕ
scale n r = n * pos_part r.num / r.den
