-- ===== src/Decimal/Rounding.antt =====
-- Rounding to whole numbers and to ticks.
use jh_holdings.Prelude.{ℕ, suc, ◌+◌, ◌-◌, ◌*◌, ◌/◌, ◌≤◌, ◌<◌, ◌≡◌, arith}
use native.Mathlib.Nat.{div-mul-le_self, lt-div-mul-add, mul-le-mul_right, mul-pos}
use jh_holdings.Decimal.Defs.{
  Decimal, den, of_ℕ, ◌⊗◌, leq, less, ◌≼◌, ◌≺◌, divide, floor, integral_down, integral_ceiling,
  ceiling,
}
use jh_holdings.Decimal.Laws.{≼_of_parts, ≺_of_parts}

pub positive_parts : (a : Decimal) → of_ℕ 0 ≺ a → a.down < a.up
unfolding less leq
positive_parts a h = ground arith

pub nonneg_parts : (a : Decimal) → of_ℕ 0 ≼ a → a.down ≤ a.up
unfolding leq
nonneg_parts a h = ground arith

-- The denominator of a quotient by a positive number.
den-divide : (a b : Decimal) → of_ℕ 0 ≺ b → den (divide a b) ≡ den a * (b.up - b.down)
unfolding divide
den-divide a b h =
    let k = positive_parts b h in
    omega (arith, mul-pos {m = den a} {n = b.up - b.down} (omega arith) (omega arith))

pub of_ℕ-floor-≼ : (a : Decimal) → of_ℕ 0 ≼ a → of_ℕ (floor a) ≼ a
unfolding floor
of_ℕ-floor-≼ a h =
    ≼_of_parts (of_ℕ (floor a)) a
      (omega (arith, nonneg_parts a h, div-mul-le_self (a.up - a.down) (den a)))

-- q (bu - bd) da ≤ (au - ad) db, with the subtractions moved over.
whole_le :
    (q da bd e ad f db : ℕ)
    → q * (da * e) ≤ f * db
    → q * (bd + e) * da + ad * db ≤ (ad + f) * db + q * bd * da
whole_le q da bd e ad f db h = omega arith

whole_lt :
    (q da bd e ad f db : ℕ)
    → f * db < q * (da * e) + da * e
    → (ad + f) * db + (q + 1) * bd * da < (q + 1) * (bd + e) * da + ad * db
whole_lt q da bd e ad f db h = omega arith

sub_times : (ad f db : ℕ) → (ad + f) * db - ad * db ≡ f * db
sub_times ad f db = omega arith

-- The numerator of a quotient.
top-divide :
    (a b : Decimal) → of_ℕ 0 ≼ a → (divide a b).up - (divide a b).down ≡ (a.up - a.down) * den b
unfolding divide
top-divide a b p =
    let e : a.down + (a.up - a.down) ≡ a.up = omega (arith, nonneg_parts a p) in
    rw e at (sub_times a.down (a.up - a.down) (den b))

floor-divide_le :
    (a b : Decimal)
    → of_ℕ 0 ≼ a
    → of_ℕ 0 ≺ b
    → floor (divide a b) * (den a * (b.up - b.down)) ≤ (a.up - a.down) * den b
unfolding floor
floor-divide_le a b p r =
    rw (← den-divide a b r, ← top-divide a b p)
      (div-mul-le_self ((divide a b).up - (divide a b).down) (den (divide a b)))

lt_floor-divide :
    (a b : Decimal)
    → of_ℕ 0 ≼ a
    → of_ℕ 0 ≺ b
    → (a.up - a.down) * den b
      < floor (divide a b) * (den a * (b.up - b.down)) + den a * (b.up - b.down)
unfolding floor
lt_floor-divide a b p r =
    rw (← den-divide a b r, ← top-divide a b p)
      (lt-div-mul-add {a = (divide a b).up - (divide a b).down} {b = den (divide a b)}
        (omega arith))

module _ (a b : Decimal) (p : of_ℕ 0 ≼ a) (r : of_ℕ 0 ≺ b) where
  gap_b : b.down + (b.up - b.down) ≡ b.up
  gap_b = omega (arith, positive_parts b r)

  gap_a : a.down + (a.up - a.down) ≡ a.up
  gap_a = omega (arith, nonneg_parts a p)

  -- The whole part of a quotient, times the divisor, is at most the dividend.
  pub floor-divide-⊗ : of_ℕ (floor (divide a b)) ⊗ b ≼ a
  unfolding ◌⊗◌
  floor-divide-⊗ =
      let q = floor (divide a b) in
      let h =
        whole_le q (den a) b.down (b.up - b.down) a.down (a.up - a.down) (den b)
          (floor-divide_le a b p r) in
      ≼_of_parts (of_ℕ q ⊗ b) a (omega (arith, rw (gap_b, gap_a) at h))

  -- One share more would cost more.
  pub ≺-floor-divide-⊗ : a ≺ of_ℕ (floor (divide a b) + 1) ⊗ b
  unfolding ◌⊗◌
  ≺-floor-divide-⊗ =
      let q = floor (divide a b) in
      let h =
        whole_lt q (den a) b.down (b.up - b.down) a.down (a.up - a.down) (den b)
          (lt_floor-divide a b p r) in
      ≺_of_parts a (of_ℕ (q + 1) ⊗ b) (omega (arith, rw (gap_b, gap_a) at h))

zero_div : (n d : ℕ) → n ≡ 0 → n / d ≡ 0
zero_div n d h = rw h (omega arith)

-- The whole part as a `Decimal`, of a value that is not negative.
pub integral_down-of_floor : (a : Decimal) → of_ℕ 0 ≼ a → integral_down a ≡ of_ℕ (floor a)
unfolding integral_down floor
integral_down-of_floor a p =
    let e : (a.down - a.up) / den a ≡ 0 =
      zero_div (a.down - a.up) (den a) (omega (arith, nonneg_parts a p)) in
    λ i. record { up = (a.up - a.down) / den a; down = e i; below = 0 }

pub divide-nonneg : (a b : Decimal) → of_ℕ 0 ≼ a → of_ℕ 0 ≼ divide a b
unfolding divide
divide-nonneg a b p =
    ≼_of_parts (of_ℕ 0) (divide a b) (omega (arith, mul-le-mul_right (den b) (nonneg_parts a p)))

-- Division that rounds up.
le-ceil : (n k : ℕ) → n ≤ (n + k) / suc k * suc k
le-ceil n k = omega (arith, lt-div-mul-add {a = n + k} {b = suc k} (omega arith))

ceil_le :
    (q da bd e ad f db : ℕ)
    → f * db ≤ q * (da * e)
    → (ad + f) * db + q * bd * da ≤ q * (bd + e) * da + ad * db
ceil_le q da bd e ad f db h = omega arith

-- The least whole number that is not below a quotient, times the divisor, covers the dividend.
module _ (a b : Decimal) (p : of_ℕ 0 ≼ a) (r : of_ℕ 0 ≺ b) where
  ceiling-divide : (a.up - a.down) * den b ≤ ceiling (divide a b) * (den a * (b.up - b.down))
  unfolding ceiling
  ceiling-divide = rw (← den-divide a b r, ← top-divide a b p) (covers (divide a b))
    where
      covers : (c : Decimal) → c.up - c.down ≤ ceiling c * den c
      covers c = le-ceil (c.up - c.down) c.below

  pub ≼-ceiling-divide-⊗ : a ≼ of_ℕ (ceiling (divide a b)) ⊗ b
  unfolding ◌⊗◌
  ≼-ceiling-divide-⊗ =
      let h =
        ceil_le (ceiling (divide a b)) (den a) b.down (b.up - b.down) a.down (a.up - a.down) (den b)
          ceiling-divide in
      ≼_of_parts a (of_ℕ (ceiling (divide a b)) ⊗ b)
        (omega (arith, rw (gap_b a b p r, gap_a a b p r) at h))

pub integral_ceiling-of_ceiling : (a : Decimal) → of_ℕ 0 ≼ a → integral_ceiling a ≡ of_ℕ (ceiling a)
unfolding integral_ceiling ceiling
integral_ceiling-of_ceiling a p =
    let e : (a.down - a.up) / den a ≡ 0 =
      zero_div (a.down - a.up) (den a) (omega (arith, nonneg_parts a p)) in
    λ i. record { up = (a.up - a.down + a.below) / den a; down = e i; below = 0 }
