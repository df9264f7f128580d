-- ===== src/Decimal/Laws.antt =====
-- The order of the fractions, with sums and products.
use jh_holdings.Prelude.{ℕ, suc, ◌+◌, ◌-◌, ◌*◌, ◌≤◌, ◌<◌, ◌≡◌, ◌⊎◌, false, arith}
use native.Mathlib.Nat.{mul-le-mul_left, mul-le-mul_right, le_of_mul-le-mul_right, mul-pos}
use jh_holdings.Decimal.Defs.{Decimal, den, of_ℕ, ◌⊕◌, ◌⊖◌, ◌⊗◌, leq, less, ◌≼◌, ◌≺◌, min, max}

pub ≼_refl : (a : Decimal) → a ≼ a
unfolding leq
≼_refl a = ground arith

-- What the order says of the parts.
pub ≼_parts :
    (a b : Decimal) → a ≼ b → a.up * den b + b.down * den a ≤ b.up * den a + a.down * den b
unfolding leq
≼_parts a b h = ground arith

pub ≼_of_parts :
    (a b : Decimal) → a.up * den b + b.down * den a ≤ b.up * den a + a.down * den b → a ≼ b
unfolding leq
≼_of_parts a b h = ground arith

pub ≼_trans : (a b c : Decimal) → a ≼ b → b ≼ c → a ≼ c
≼_trans a b c p q = ≼_of_parts a c (
    le_of_mul-le-mul_right {k = den b}
      (omega
        (arith, mul-le-mul_right (den c) (≼_parts a b p), mul-le-mul_right (den a) (≼_parts b c q)))
      (omega arith))

pub ≼_total : (a b : Decimal) → (a ≼ b) ⊎ (b ≼ a)
unfolding leq
≼_total a b = ground arith

pub ⊕_mono : (a b c d : Decimal) → a ≼ b → c ≼ d → a ⊕ c ≼ b ⊕ d
unfolding ◌⊕◌
⊕_mono a b c d p q = ≼_of_parts (a ⊕ c) (b ⊕ d) (
    omega (
      arith,
      mul-le-mul_right (den c * den d) (≼_parts a b p),
      mul-le-mul_right (den a * den b) (≼_parts c d q),
    ))

-- `c <= a - b` moves over to `b + c <= a`, and back.
pub ≼-⊖_iff : (a b c : Decimal) → c ≼ a ⊖ b → b ⊕ c ≼ a
unfolding ◌⊕◌ ◌⊖◌
≼-⊖_iff a b c p = ≼_of_parts (b ⊕ c) a (omega (arith, ≼_parts c (a ⊖ b) p))

pub ≼_of_≺ : (a b : Decimal) → a ≺ b → a ≼ b
unfolding less
≼_of_≺ a b h = ground (arith, ≼_total a b)

pub ≼_of_not_less : (a b : Decimal) → less b a ≡ false → a ≼ b
unfolding less
≼_of_not_less a b h = ground arith

-- An unsuccessful `a <= b` is `b < a`.
pub ≺_of_not_leq : (a b : Decimal) → leq a b ≡ false → b ≺ a
unfolding less
≺_of_not_leq a b h = ground arith

pub min-≼_left : (a b : Decimal) → min a b ≼ a
unfolding min
min-≼_left a b = ground (arith, ≼_refl a, ≼_of_≺ b a)

pub min-≼_right : (a b : Decimal) → min a b ≼ b
unfolding min
min-≼_right a b = ground (arith, ≼_refl b, ≼_of_not_less a b)

pub max-≽_left : (a b : Decimal) → a ≼ max a b
unfolding max
max-≽_left a b = ground (arith, ≼_refl a, ≼_of_≺ a b)

pub max-≽_right : (a b : Decimal) → b ≼ max a b
unfolding max
max-≽_right a b = ground (arith, ≼_refl b, ≼_of_not_less b a)

pub max-≼ : (a b c : Decimal) → a ≼ c → b ≼ c → max a b ≼ c
unfolding max
max-≼ a b c p q = ground arith

pub ≼-min : (a b c : Decimal) → c ≼ a → c ≼ b → c ≼ min a b
unfolding min
≼-min a b c p q = ground arith

rearrange : (x e u d : ℕ) → d ≤ u → x * u + (x + e) * d ≤ (x + e) * u + x * d
rearrange x e u d h = omega (arith, mul-le-mul_left e h)

pub products : (x y u d : ℕ) → x ≤ y → d ≤ u → x * u + y * d ≤ y * u + x * d
products x y u d h k = let e : x + (y - x) ≡ y = omega arith in rw e at (rearrange x (y - x) u d k)

-- The lesser factor gives the lesser product, when the other factor is not negative.
pub ⊗_mono : (a b c : Decimal) → a ≼ b → of_ℕ 0 ≼ c → a ⊗ c ≼ b ⊗ c
unfolding ◌⊗◌
⊗_mono a b c p q = ≼_of_parts (a ⊗ c) (b ⊗ c) (
    omega (
      arith,
      mul-le-mul_right (den c) (
          products (a.up * den b + b.down * den a) (b.up * den a + a.down * den b) c.up c.down
            (≼_parts a b p) (omega (arith, ≼_parts (of_ℕ 0) c q))),
    ))

pub ≺_of_parts :
    (a b : Decimal) → a.up * den b + b.down * den a < b.up * den a + a.down * den b → a ≺ b
unfolding less leq
≺_of_parts a b h = ground arith

pub ≺_parts :
    (a b : Decimal) → a ≺ b → a.up * den b + b.down * den a < b.up * den a + a.down * den b
unfolding less leq
≺_parts a b h = ground arith

sum_assoc :
    (p q r x y z : ℕ)
    → p * suc (y * z + y + z) + (q * suc z + r * suc y) * suc x
      ≡ (p * suc y + q * suc x) * suc z + r * suc (x * y + x + y)
sum_assoc p q r x y z = omega arith

below_assoc :
    (x y z : ℕ)
    → x * (y * z + y + z) + x + (y * z + y + z) ≡ (x * y + x + y) * z + (x * y + x + y) + z
below_assoc x y z = omega arith

pub ⊕_assoc : (a b c : Decimal) → a ⊕ (b ⊕ c) ≡ a ⊕ b ⊕ c
unfolding ◌⊕◌
⊕_assoc a b c = λ i. record {
  up = sum_assoc a.up b.up c.up a.below b.below c.below i;
  down = sum_assoc a.down b.down c.down a.below b.below c.below i;
  below = below_assoc a.below b.below c.below i;
}

pub of_ℕ_mono : (m n : ℕ) → m ≤ n → of_ℕ m ≼ of_ℕ n
of_ℕ_mono m n h = ≼_of_parts (of_ℕ m) (of_ℕ n) (omega arith)

lt_products : (x e y f : ℕ) → 0 < e → 0 < f → (x + e) * y + x * (y + f) < (x + e) * (y + f) + x * y
lt_products x e y f h k = omega (arith, mul-pos h k)

-- A product of positive numbers is positive.
pub ⊗_pos : (a b : Decimal) → of_ℕ 0 ≺ a → of_ℕ 0 ≺ b → of_ℕ 0 ≺ a ⊗ b
unfolding ◌⊗◌
⊗_pos a b p q =
    let ka = ≺_parts (of_ℕ 0) a p in
    let kb = ≺_parts (of_ℕ 0) b q in
    let ea : a.down + (a.up - a.down) ≡ a.up = omega arith in
    let eb : b.down + (b.up - b.down) ≡ b.up = omega arith in
    let h = lt_products a.down (a.up - a.down) b.down (b.up - b.down) (omega arith) (omega arith) in
    ≺_of_parts (of_ℕ 0) (a ⊗ b) (omega (arith, rw (ea, eb) at h))

pub not_leq_of_≺ : (a b : Decimal) → a ≺ b → leq b a ≡ false
unfolding less
not_leq_of_≺ a b h = ground arith

pub ⊗_comm : (a b : Decimal) → a ⊗ b ≡ b ⊗ a
unfolding ◌⊗◌
⊗_comm a b = λ i. record {
  up = swap_up a.up b.up a.down b.down i;
  down = swap_down a.up b.up a.down b.down i;
  below = swap_below a.below b.below i;
}
  where
    swap_up : (p q r s : ℕ) → p * q + r * s ≡ q * p + s * r
    swap_up p q r s = omega arith

    swap_down : (p q r s : ℕ) → p * s + r * q ≡ q * r + s * p
    swap_down p q r s = omega arith

    swap_below : (x y : ℕ) → x * y + x + y ≡ y * x + y + x
    swap_below x y = omega arith

pub ⊗_mono_right : (c a b : Decimal) → a ≼ b → of_ℕ 0 ≼ c → c ⊗ a ≼ c ⊗ b
⊗_mono_right c a b p q = rw (⊗_comm c a, ⊗_comm c b) (⊗_mono a b c p q)

pub one_more-pos : (r : Decimal) → of_ℕ 0 ≼ r → of_ℕ 0 ≺ of_ℕ 1 ⊕ r
unfolding ◌⊕◌
one_more-pos r h = ≺_of_parts (of_ℕ 0) (of_ℕ 1 ⊕ r) (omega (arith, ≼_parts (of_ℕ 0) r h))

pub ⊖_mono : (a b c : Decimal) → a ≼ b → a ⊖ c ≼ b ⊖ c
unfolding ◌⊖◌
⊖_mono a b c p =
    ≼_of_parts (a ⊖ c) (b ⊖ c) (omega (arith, mul-le-mul_right (den c * den c) (≼_parts a b p)))

pub of_ℕ_reflect : (m n : ℕ) → of_ℕ m ≼ of_ℕ n → m ≤ n
of_ℕ_reflect m n h = omega (arith, ≼_parts (of_ℕ m) (of_ℕ n) h)

pub ⊗-one_≼ : (a : Decimal) → a ⊗ of_ℕ 1 ≼ a
unfolding ◌⊗◌
⊗-one_≼ a = ≼_of_parts (a ⊗ of_ℕ 1) a (omega arith)

pub ⊗-nonneg : (a b : Decimal) → of_ℕ 0 ≼ a → of_ℕ 0 ≼ b → of_ℕ 0 ≼ a ⊗ b
unfolding ◌⊗◌
⊗-nonneg a b p q = ≼_of_parts (of_ℕ 0) (a ⊗ b) (
    omega (
      arith,
      products a.down a.up b.up b.down (omega (arith, ≼_parts (of_ℕ 0) a p))
          (omega (arith, ≼_parts (of_ℕ 0) b q)),
    ))

-- Nothing of a thing costs nothing.
pub nothing-≼ : (a b : Decimal) → of_ℕ 0 ≼ b → of_ℕ 0 ⊗ a ≼ b
unfolding ◌⊗◌
nothing-≼ a b h =
    ≼_of_parts (of_ℕ 0 ⊗ a) b
      (omega (arith, mul-le-mul_right (den (of_ℕ 0 ⊗ a)) (≼_parts (of_ℕ 0) b h)))
