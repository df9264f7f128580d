-- ===== src/Decimal/Mean.antt =====
-- Means and differences of fractions.
use jh_holdings.Prelude.{ℕ, suc, ◌+◌, ◌*◌, ◌<◌, ◌≡◌, refl, true, sym, ap, subst, ◌∙◌, arith}
use jh_holdings.Decimal.Defs.{Decimal, den, of_ℕ, ◌⊗◌, ◌⊕◌, ◌⊖◌, divide, same, ◌≼◌, ◌≈◌}
use jh_holdings.Decimal.Laws.{≼_of_parts, ≼_parts, ≼_refl, ≼_trans, ⊕_mono, ⊕_assoc}

parts :
    (x : Decimal) (n : ℕ)
    → 0 < n
    → ((divide x (of_ℕ n) ⊗ of_ℕ n).up ≡ x.up * n)
      × ((divide x (of_ℕ n) ⊗ of_ℕ n).down ≡ x.down * n)
      × (den (divide x (of_ℕ n) ⊗ of_ℕ n) ≡ den x * n)
unfolding divide ◌⊗◌
parts x n h = (grind arith, grind arith, grind arith)

crossed : (u n d : ℕ) → u * n * d ≡ u * (d * n)
crossed u n d = grind arith

pub divide-⊗ : (x : Decimal) (n : ℕ) → 0 < n → divide x (of_ℕ n) ⊗ of_ℕ n ≈ x
divide-⊗ x n h =
    let (u, d, e) = parts x n h in
    let up_same : (divide x (of_ℕ n) ⊗ of_ℕ n).up * den x
        ≡ x.up * den (divide x (of_ℕ n) ⊗ of_ℕ n) =
      ap (λ t. t * den x) u ∙ crossed x.up n (den x) ∙ ap (λ t. x.up * t) (sym e) in
    let down_same : (divide x (of_ℕ n) ⊗ of_ℕ n).down * den x
        ≡ x.down * den (divide x (of_ℕ n) ⊗ of_ℕ n) =
      ap (λ t. t * den x) d ∙ crossed x.down n (den x) ∙ ap (λ t. x.down * t) (sym e) in
    (≼_of_parts _ x (omega arith), ≼_of_parts x _ (omega arith))

-- What is taken off and put back is there again.
cancel_parts :
    (p q x a b y : ℕ)
    → ((p * suc y + b * suc x) * suc y + a * suc (x * y + x + y)) * suc x
        + q * suc ((x * y + x + y) * y + (x * y + x + y) + y)
      ≡ p * suc ((x * y + x + y) * y + (x * y + x + y) + y)
        + ((q * suc y + a * suc x) * suc y + b * suc (x * y + x + y)) * suc x
cancel_parts p q x a b y = omega arith

pub ⊖-⊕_cancel : (n a : Decimal) → n ⊖ a ⊕ a ≈ n
unfolding ◌⊕◌ ◌⊖◌
⊖-⊕_cancel n a = (
  ≼_of_parts _ n (omega (arith, cancel_parts n.up n.down n.below a.up a.down a.below)),
  ≼_of_parts n _ (omega (arith, cancel_parts n.up n.down n.below a.up a.down a.below)),
)

pub ≈_trans : (a b c : Decimal) → a ≈ b → b ≈ c → a ≈ c
≈_trans a b c (p, q) (r, s) = (≼_trans a b c p r, ≼_trans c b a s q)

pub ≈_sym : (a b : Decimal) → a ≈ b → b ≈ a
≈_sym a b (p, q) = (q, p)

pub ⊕-≈ : (a b c d : Decimal) → a ≈ b → c ≈ d → a ⊕ c ≈ b ⊕ d
⊕-≈ a b c d (p, q) (r, s) = (⊕_mono a b c d p r, ⊕_mono b a d c q s)

pub ≈_of_same : (a b : Decimal) → same a b ≡ true → a ≈ b
unfolding same
≈_of_same a b h = ground arith

pub same_of_≈ : (a b : Decimal) → a ≈ b → same a b ≡ true
unfolding same
same_of_≈ a b (p, q) = ground arith

pub ⊖-self : (a : Decimal) → a ⊖ a ≈ of_ℕ 0
unfolding ◌⊖◌
⊖-self a = (≼_of_parts _ (of_ℕ 0) (omega arith), ≼_of_parts (of_ℕ 0) _ (omega arith))

pub ≈-refl : (a : Decimal) → a ≈ a
≈-refl a = (≼_refl a, ≼_refl a)

pub zero-⊕ : (a : Decimal) → of_ℕ 0 ⊕ a ≈ a
unfolding ◌⊕◌
zero-⊕ a = (≼_of_parts _ a (omega arith), ≼_of_parts a _ (omega arith))

pub ≈_of_⊖-zero : (a b : Decimal) → a ⊖ b ≈ of_ℕ 0 → a ≈ b
≈_of_⊖-zero a b h =
    ≈_trans a (a ⊖ b ⊕ b) b (≈_sym (a ⊖ b ⊕ b) a (⊖-⊕_cancel a b))
      (≈_trans (a ⊖ b ⊕ b) (of_ℕ 0 ⊕ b) b (⊕-≈ (a ⊖ b) (of_ℕ 0) b b h (≈-refl b)) (zero-⊕ b))

-- A part that is added to what it was taken off from.
pub moved_⊖ : (c n a : Decimal) → c ⊕ (n ⊖ a) ⊕ a ≈ c ⊕ n
moved_⊖ c n a =
    subst (λ x. x ≈ c ⊕ n) (⊕_assoc c (n ⊖ a) a) (⊕-≈ c c (n ⊖ a ⊕ a) n (≈-refl c) (⊖-⊕_cancel n a))

pub ⊕_comm : (a b : Decimal) → a ⊕ b ≡ b ⊕ a
unfolding ◌⊕◌
⊕_comm a b = λ i. record {
  up = swap a.up b.up a.below b.below i;
  down = swap a.down b.down a.below b.below i;
  below = swap_below a.below b.below i;
}
  where
    swap : (p q x y : ℕ) → p * suc y + q * suc x ≡ q * suc x + p * suc y
    swap p q x y = omega arith

    swap_below : (x y : ℕ) → x * y + x + y ≡ y * x + y + x
    swap_below x y = omega arith

abbrev negated : Decimal → Decimal
negated a = record { up = a.down; down = a.up; below = a.below }

⊖-negated : (a b : Decimal) → a ⊖ b ≡ a ⊕ negated b
unfolding ◌⊕◌ ◌⊖◌
⊖-negated a b = refl

-- A difference that is added is an addition and a difference.
regroup : (c n a : Decimal) → c ⊕ (n ⊖ a) ≡ c ⊖ a ⊕ n
regroup c n a =
    ap (λ x. c ⊕ x) (⊖-negated n a ∙ ⊕_comm n (negated a))
    ∙ ⊕_assoc c (negated a) n
    ∙ ap (λ x. x ⊕ n) (sym (⊖-negated c a))

take_off_parts :
    (p q x a b y : ℕ)
    → ((p * suc y + a * suc x) * suc y + b * suc (x * y + x + y)) * suc x
        + q * suc ((x * y + x + y) * y + (x * y + x + y) + y)
      ≡ p * suc ((x * y + x + y) * y + (x * y + x + y) + y)
        + ((q * suc y + b * suc x) * suc y + a * suc (x * y + x + y)) * suc x
take_off_parts p q x a b y = omega arith

pub ⊕-⊖_cancel : (a b : Decimal) → a ⊕ b ⊖ b ≈ a
unfolding ◌⊕◌ ◌⊖◌
⊕-⊖_cancel a b = (
  ≼_of_parts _ a (omega (arith, take_off_parts a.up a.down a.below b.up b.down b.below)),
  ≼_of_parts a _ (omega (arith, take_off_parts a.up a.down a.below b.up b.down b.below)),
)

-- What is added and then set off leaves the rest.
pub ⊕-⊖_set_off : (c n a : Decimal) → c ⊕ (n ⊖ a) ⊖ n ≈ c ⊖ a
⊕-⊖_set_off c n a = subst (λ x. x ⊖ n ≈ c ⊖ a) (sym (regroup c n a)) (⊕-⊖_cancel (c ⊖ a) n)

pub ⊖-≈ : (a b c d : Decimal) → a ≈ b → c ≈ d → a ⊖ c ≈ b ⊖ d
⊖-≈ a b c d h (r, s) =
    subst (λ x. x ≈ b ⊖ d) (sym (⊖-negated a c))
      (subst (λ x. a ⊕ negated c ≈ x) (sym (⊖-negated b d))
        (⊕-≈ a b (negated c) (negated d) h (negated-mono d c s, negated-mono c d r)))
  where
    negated-mono : (x y : Decimal) → x ≼ y → negated y ≼ negated x
    negated-mono x y h = ≼_of_parts (negated y) (negated x) (omega (arith, ≼_parts x y h))

-- Equal rests of equal amounts come from equal totals.
pub ≈_of_⊖ : (a b c d : Decimal) → a ⊖ c ≈ b ⊖ d → c ≈ d → a ≈ b
≈_of_⊖ a b c d h k =
    ≈_trans a (a ⊖ c ⊕ c) b (≈_sym (a ⊖ c ⊕ c) a (⊖-⊕_cancel a c))
      (≈_trans (a ⊖ c ⊕ c) (b ⊖ d ⊕ d) b (⊕-≈ (a ⊖ c) (b ⊖ d) c d h k) (⊖-⊕_cancel b d))
