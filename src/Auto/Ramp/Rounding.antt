-- ===== src/Auto/Ramp/Rounding.antt =====
-- An amount rounded down to cents, and the amounts that a ramp opens.
use jh_holdings.Prelude.{
  ℕ, ◌+◌, ◌-◌, ◌*◌, ◌/◌, ◌%◌, ◌≤◌, ◌≡◌, refl, sym, subst, Bool, true, false, ◌==◌, if◌then◌else◌,
  Option, none, some, arith,
}
use native.Mathlib.Nat.{div-add-mod}
use jh_holdings.Decimal.{
  Decimal, den, less, leq, of_ℕ, ratio, ◌⊕◌, ◌⊖◌, ◌⊗◌, ◌≼◌, max, half_even, round_half, quantize,
  quantize_down,
}
use jh_holdings.Decimal.Laws.{
  ≼_of_parts, ≼_trans, ≼_refl, ⊕_mono, ⊖_mono, ⊗_mono_right, ⊗-one_≼, ⊗-nonneg, ≼-⊖_iff, max-≼,
  max-≽_left,
}
use jh_holdings.Decimal.Rounding.{nonneg_parts}
use jh_holdings.Decimal.Mean.{⊖-self}
use jh_holdings.Auto.Config.{target_principal}
use jh_holdings.Auto.Flow.{cents_of}
use jh_holdings.Auto.Launch.{ramp_fraction, ramp_principal}

half_even-exact : (k : ℕ) → half_even (k * 100) 100 ≡ k
unfolding half_even round_half
half_even-exact k =
    let q : k * 100 / 100 ≡ k = omega arith in
    let r : k * 100 % 100 ≡ 0 = omega arith in rw (q, r) refl

quotient-le : (n d : ℕ) → n / d * d ≤ n
quotient-le n d = omega (arith, div-add-mod n d)

-- Rounding down a value that is not negative.
quantize_down_parts :
    (x : Decimal)
    → of_ℕ 0 ≼ x
    → ((quantize_down 100 x).down ≡ 0)
      × ((quantize_down 100 x).up * den x + x.down * 100 ≤ x.up * 100)
unfolding quantize_down
quantize_down_parts x h =
    let le : x.down ≤ x.up = nonneg_parts x h in
    let none_down : (x.down - x.up) * 100 ≡ 0 = omega arith in
    (zero_of (den x) none_down, omega (arith, quotient-le ((x.up - x.down) * 100) (den x)))
  where
    zero_of : (d : ℕ) → (x.down - x.up) * 100 ≡ 0 → (x.down - x.up) * 100 / den x ≡ 0
    zero_of d e = omega (arith, quotient-le ((x.down - x.up) * 100) (den x), e)

pub quantize_down-≼ : (x : Decimal) → of_ℕ 0 ≼ x → quantize_down 100 x ≼ x
unfolding quantize_down
quantize_down-≼ x h =
    let (d, u) = quantize_down_parts x h in ≼_of_parts (quantize_down 100 x) x (omega (arith, d, u))

pub quantize_down-nonneg : (x : Decimal) → of_ℕ 0 ≼ x → of_ℕ 0 ≼ quantize_down 100 x
unfolding quantize_down
quantize_down-nonneg x h =
    let (d, u) = quantize_down_parts x h in
    ≼_of_parts (of_ℕ 0) (quantize_down 100 x) (omega (arith, d))

abbrev cents : ℕ → Decimal
cents k = record { up = k; down = 0; below = 99 }

quantize-cents : (k : ℕ) → quantize 100 (cents k) ≡ cents k
unfolding quantize
quantize-cents k =
    let up_same : half_even ((k - 0) * 100) 100 ≡ k =
      let e : k - 0 ≡ k = omega arith in rw e (half_even-exact k) in
    let down_same : half_even ((0 - k) * 100) 100 ≡ 0 =
      let e : (0 - k) * 100 ≡ 0 * 100 = omega arith in rw e (half_even-exact 0) in
    λ i. record { up = up_same i; down = down_same i; below = 99 }

quantize_down-cents :
    (x : Decimal) → of_ℕ 0 ≼ x → quantize_down 100 x ≡ cents (quantize_down 100 x).up
unfolding quantize_down
quantize_down-cents x h = λ i. record {
  up = (x.up - x.down) * 100 / den x;
  down = (quantize_down_parts x h).0 i;
  below = 99;
}

-- An amount in cents, as `cents_of` reads it.
pub cents_of-cents :
    (x : Decimal) → of_ℕ 0 ≼ x → cents_of (quantize_down 100 x) ≼ quantize_down 100 x
unfolding cents_of
cents_of-cents x h =
    max-≼ (of_ℕ 0) (quantize 100 (quantize_down 100 x)) (quantize_down 100 x)
      (quantize_down-nonneg x h)
      (subst (λ y. quantize 100 y ≼ y) (sym (quantize_down-cents x h))
        (subst (λ y. y ≼ cents (quantize_down 100 x).up)
          (sym (quantize-cents (quantize_down 100 x).up))
          (≼_refl (cents (quantize_down 100 x).up))))

-- the amount that is opened, against the amount that was asked for
pub cents_of-≼ : (x : Decimal) → of_ℕ 0 ≼ x → cents_of (quantize_down 100 x) ≼ x
cents_of-≼ x h = ≼_trans _ _ x (cents_of-cents x h) (quantize_down-≼ x h)

pub cents_of-nonneg : (x : Decimal) → of_ℕ 0 ≼ cents_of x
unfolding cents_of
cents_of-nonneg x = max-≽_left (of_ℕ 0) (quantize 100 x)

-- a setting that is missing, or not negative
abbrev pub Nonneg : Option Decimal → Type 0
Nonneg none = Unit
Nonneg (some x) = of_ℕ 0 ≼ x

nothing : (of_ℕ 0 ≼ of_ℕ 0) × (cents_of (of_ℕ 0) ≼ of_ℕ 0)
unfolding cents_of quantize half_even round_half max less leq
nothing = (refl, refl)

pub target_principal-nonneg :
    (base rate : Option Decimal)
    → Nonneg base
    → Nonneg rate
    → (of_ℕ 0 ≼ target_principal base rate)
      × (cents_of (target_principal base rate) ≼ target_principal base rate)
unfolding target_principal
target_principal-nonneg (some b) (some r) p q =
    (quantize_down-nonneg (b ⊗ r) (⊗-nonneg b r p q), cents_of-cents (b ⊗ r) (⊗-nonneg b r p q))
target_principal-nonneg none r p q = nothing
target_principal-nonneg (some b) none p q = nothing

pub ramp_fraction-le : (n : ℕ) → (ramp_fraction n ≼ of_ℕ 1) × (of_ℕ 0 ≼ ramp_fraction n)
unfolding leq
ramp_fraction-le n = by_stage (n == 1) (n == 2)
  where
    by_stage :
        (a b : Bool)
        → ((if a then ratio 1 2 else if b then ratio 3 4 else of_ℕ 1) ≼ of_ℕ 1)
          × (of_ℕ 0 ≼ (if a then ratio 1 2 else if b then ratio 3 4 else of_ℕ 1))
    by_stage true b = (refl, refl)
    by_stage false true = (refl, refl)
    by_stage false false = (refl, refl)

pub ⊖-nonneg : (b t : Decimal) → b ≼ t → of_ℕ 0 ≼ t ⊖ b
⊖-nonneg b t h = ≼_trans (of_ℕ 0) (b ⊖ b) (t ⊖ b) (⊖-self b).1 (⊖_mono b t b h)

-- A stage opens no more than the whole ramp.
pub ramp_principal-≼ :
    (base target : Decimal) (stage : ℕ)
    → of_ℕ 0 ≼ base
    → base ≼ target
    → cents_of (ramp_principal base target stage) ≼ target
unfolding ramp_principal ◌⊕◌
ramp_principal-≼ base target stage p h =
    let part = (target ⊖ base) ⊗ ramp_fraction stage in
    let (le, nonneg) = ramp_fraction-le stage in
    let part_nonneg : of_ℕ 0 ≼ part =
      ⊗-nonneg (target ⊖ base) (ramp_fraction stage) (⊖-nonneg base target h) nonneg in
    let part_le : part ≼ target ⊖ base =
      ≼_trans part ((target ⊖ base) ⊗ of_ℕ 1) (target ⊖ base)
        (⊗_mono_right (target ⊖ base) (ramp_fraction stage) (of_ℕ 1) le (⊖-nonneg base target h))
        (⊗-one_≼ (target ⊖ base)) in
    ≼_trans _ (base ⊕ part) target
      (cents_of-≼ (base ⊕ part) (⊕_mono (of_ℕ 0) base (of_ℕ 0) part p part_nonneg))
      (≼-⊖_iff target base part part_le)
