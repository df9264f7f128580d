-- ===== src/Decimal/Defs.antt =====
-- The operations of `decimal.Decimal` that the program uses, on exact fractions.
use jh_holdings.Prelude.{
  ℕ, suc, ◌+◌, ◌-◌, ◌*◌, ◌/◌, ◌%◌, ◌≡◌, Bool, true, not, ◌&&◌, List, [], ◌∷◌, leb, ltb,
  if◌then◌else◌,
}

pub record Decimal : Type 0 where
  pub up : ℕ
  pub down : ℕ
  pub below : ℕ

-- the denominator, which is never 0
abbrev pub den : Decimal → ℕ
den a = suc a.below

-- `Decimal(n)` for a natural number
abbrev pub of_ℕ : ℕ → Decimal
of_ℕ n = record { up = n; down = 0; below = 0 }

-- the literal n / d, with d positive: `Decimal("0.01")` is `ratio 1 100`
abbrev pub ratio : ℕ → ℕ → Decimal
ratio n d = record { up = n; down = 0; below = d - 1 }

abbrev pub minus_ratio : ℕ → ℕ → Decimal
minus_ratio n d = record { up = 0; down = n; below = d - 1 }

infixl 65 ◌⊕◌ ◌⊖◌
infixl 70 ◌⊗◌
unfoldable pub ◌⊕◌ : Decimal → Decimal → Decimal
a ⊕ b = record {
  up = a.up * den b + b.up * den a;
  down = a.down * den b + b.down * den a;
  below = a.below * b.below + a.below + b.below;
}

unfoldable pub ◌⊖◌ : Decimal → Decimal → Decimal
a ⊖ b = record {
  up = a.up * den b + b.down * den a;
  down = a.down * den b + b.up * den a;
  below = a.below * b.below + a.below + b.below;
}

unfoldable pub ◌⊗◌ : Decimal → Decimal → Decimal
a ⊗ b = record {
  up = a.up * b.up + a.down * b.down;
  down = a.up * b.down + a.down * b.up;
  below = a.below * b.below + a.below + b.below;
}

-- `a / b` for a positive `b`, as every caller has checked
unfoldable pub divide : Decimal → Decimal → Decimal
divide a b = record {
  up = a.up * den b;
  down = a.down * den b;
  below = den a * (b.up - b.down) - 1;
}

-- `a <= b` and `a < b`, by cross-multiplication
unfoldable pub leq : Decimal → Decimal → Bool
leq a b = leb (a.up * den b + b.down * den a) (b.up * den a + a.down * den b)

unfoldable pub less : Decimal → Decimal → Bool
less a b = not (leq b a)

-- `a == b`
unfoldable pub same : Decimal → Decimal → Bool
same a b = leq a b && leq b a

infix 50 ◌≼◌ ◌≺◌ ◌≈◌
-- the statements that the tests decide
abbrev pub ◌≼◌ : Decimal → Decimal → Type 0
a ≼ b = leq a b ≡ true

abbrev pub ◌≺◌ : Decimal → Decimal → Type 0
a ≺ b = less a b ≡ true

abbrev pub ◌≈◌ : Decimal → Decimal → Type 0
a ≈ b = (a ≼ b) × (b ≼ a)

-- Python's `min` and `max` return the first of two equal arguments.
unfoldable pub min : Decimal → Decimal → Decimal
min a b = if less b a then b else a

unfoldable pub max : Decimal → Decimal → Decimal
max a b = if less a b then b else a

-- `int(a)` of a value that is not negative, and `to_integral_value(ROUND_DOWN)`, towards 0
unfoldable pub floor : Decimal → ℕ
floor a = (a.up - a.down) / den a

unfoldable pub integral_down : Decimal → Decimal
integral_down a = record { up = (a.up - a.down) / den a; down = (a.down - a.up) / den a; below = 0 }

-- `to_integral_value(ROUND_CEILING)`, and `int` of it
unfoldable pub ceiling : Decimal → ℕ
ceiling a = (a.up - a.down + a.below) / den a

unfoldable pub integral_ceiling : Decimal → Decimal
integral_ceiling a = record {
  up = (a.up - a.down + a.below) / den a;
  down = (a.down - a.up) / den a;
  below = 0;
}

-- a quotient with its remainder, rounded to the nearest integer, halves to the even one
unfoldable pub round_half : ℕ → ℕ → ℕ → ℕ
round_half q r d = if ltb (2 * r) d then q else if ltb d (2 * r) then q + 1 else q + q % 2

unfoldable pub half_even : ℕ → ℕ → ℕ
half_even n d = round_half (n / d) (n % d) d

-- `a.quantize(Decimal(1) / unit)`: the default rounding ROUND_HALF_EVEN
unfoldable pub quantize : ℕ → Decimal → Decimal
quantize unit a = record {
  up = half_even ((a.up - a.down) * unit) (den a);
  down = half_even ((a.down - a.up) * unit) (den a);
  below = unit - 1;
}

-- `a.quantize(Decimal(1) / unit, rounding=ROUND_DOWN)`
unfoldable pub quantize_down : ℕ → Decimal → Decimal
quantize_down unit a = record {
  up = (a.up - a.down) * unit / den a;
  down = (a.down - a.up) * unit / den a;
  below = unit - 1;
}

-- `sum(xs, Decimal("0"))`
abbrev pub total : List Decimal → Decimal
total [] = of_ℕ 0
total (x ∷ xs) = x ⊕ total xs
