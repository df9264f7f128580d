-- ===== src/Decimal/Quantize.antt =====
-- `quantize` with the default rounding.
use jh_holdings.Prelude.{
  ℕ, zero, suc, ◌+◌, ◌-◌, ◌*◌, ◌/◌, ◌%◌, ◌≤◌, ◌<◌, ◌≡◌, ◌⊎◌, inl, inr, ap, arith, ltb, Bool-cases,
}
use native.Mathlib.Nat.{div-add-mod, mul-le-mul_right, mod-lt}
use jh_holdings.Decimal.Defs.{Decimal, den, of_ℕ, ◌⊕◌, ◌≼◌, half_even, round_half, quantize}
use jh_holdings.Decimal.Laws.{≼_of_parts}
use jh_holdings.Decimal.Rounding.{nonneg_parts}

-- Rounding adds nothing or one, by the side of the half on which the remainder stands.
round_half-cases :
    (q r d : ℕ)
    → ((round_half q r d ≡ q) × (2 * r ≤ d)) ⊎ ((round_half q r d ≡ q + 1) × (d ≤ 2 * r))
unfolding round_half
round_half-cases q r d = elim (Bool-cases (ltb (2 * r) d)) [
  | inl low ↦ ground arith
  | inr not_low ↦ elim (Bool-cases (ltb d (2 * r))) [
    | inl high ↦ ground arith
    | inr half ↦ tie (q % 2) (omega arith) (ground arith) (ground arith)
  ]
]
  where
    tie :
        (p : ℕ)
        → p < 2
        → 2 * r ≡ d
        → round_half q r d ≡ q + p
        → ((round_half q r d ≡ q) × (2 * r ≤ d)) ⊎ ((round_half q r d ≡ q + 1) × (d ≤ 2 * r))
    tie zero h even e = inl (rw e (omega arith), omega arith)
    tie (suc zero) h even e = inr (rw e (omega arith), omega arith)
    tie (suc (suc p)) h even e = absurd (omega arith)

-- Twice the rounded quotient is within one divisor of twice the dividend.
half_even_bounds :
    (n d : ℕ) → 0 < d → (half_even n d * d * 2 ≤ n * 2 + d) × (n * 2 ≤ half_even n d * d * 2 + d)
unfolding half_even
half_even_bounds n d h = elim (round_half-cases (n / d) (n % d) d) [
  | inl (e, low) ↦ rw e (omega (arith, div-add-mod n d), omega (arith, div-add-mod n d))
  | inr (e, high) ↦
      rw e (omega (arith, div-add-mod n d), omega (arith, div-add-mod n d, mod-lt n h))
]

pub half_even-zero : (d : ℕ) → 0 < d → half_even 0 d ≡ 0
unfolding half_even round_half
half_even-zero d h = ground (arith, div-add-mod 0 d)

-- half of 1 / (u + 1)
abbrev pub half_unit : ℕ → Decimal
half_unit u = record { up = 1; down = 0; below = 2 * u + 1 }

-- The numerator that `quantize` rounds, for a value that is not negative.
scaled_gap :
    (a : Decimal) (u : ℕ) → of_ℕ 0 ≼ a → (a.up - a.down) * suc u + a.down * suc u ≡ a.up * suc u
scaled_gap a u p =
    let f = a.up - a.down in
    let e : a.down + f ≡ a.up = omega (arith, nonneg_parts a p) in rw (← e) (gap a.down f (suc u))
  where
    gap : (d f k : ℕ) → (d + f - d) * k + d * k ≡ (d + f) * k
    gap d f k = let e : d + f - d ≡ f = omega arith in rw e (omega arith)

module _ (u : ℕ) (a : Decimal) (p : of_ℕ 0 ≼ a) where
  pub down_zero : half_even ((a.down - a.up) * suc u) (den a) ≡ 0
  down_zero =
      let e : a.down - a.up ≡ 0 = omega (arith, nonneg_parts a p) in
      rw e (let z : 0 * suc u ≡ 0 = omega arith in rw z (half_even-zero (den a) (omega arith)))

  one_less : suc u - 1 ≡ u
  one_less = omega arith

  -- Rounding to a unit raises a value by at most half a unit.
  pub quantize-≼ : quantize (suc u) a ≼ a ⊕ half_unit u
  unfolding quantize ◌⊕◌
  quantize-≼ =
      let n = (a.up - a.down) * suc u in
      ≼_of_parts (quantize (suc u) a) (a ⊕ half_unit u) (
        rw (down_zero, one_less)
          (omega (
            arith,
            mul-le-mul_right (suc u) (half_even_bounds n (den a) (omega arith)).0,
            ap (λ (t : ℕ). t * suc u) (scaled_gap a u p),
          )))

  -- It lowers a value by at most half a unit too.
  pub ≼-quantize : a ≼ quantize (suc u) a ⊕ half_unit u
  unfolding quantize ◌⊕◌
  ≼-quantize =
      let n = (a.up - a.down) * suc u in
      ≼_of_parts a (quantize (suc u) a ⊕ half_unit u) (
        rw (down_zero, one_less)
          (omega (
            arith,
            mul-le-mul_right (suc u * 2) (half_even_bounds n (den a) (omega arith)).1,
            ap (λ (t : ℕ). t * suc u) (scaled_gap a u p),
          )))
