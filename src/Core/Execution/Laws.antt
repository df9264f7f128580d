-- ===== src/Core/Execution/Laws.antt =====
-- Bounds on the limit price and on the share count.
use jh_holdings.Prelude.{
  ℕ, ◌+◌, ◌≤◌, ◌≡◌, inl, inr, Option, none, some, arith, ok, Bool-cases, ◌||◌, raise_if-eq-ok,
  ok-injective, sym, ◌∙◌,
}
use jh_holdings.Decimal.{Decimal, den, of_ℕ, ◌⊕◌, ◌⊖◌, ◌⊗◌, divide, leq, less, ◌≼◌, ◌≺◌, min, floor}
use jh_holdings.Decimal.Laws.{
  ⊗_pos, nothing-≼, one_more-pos, not_leq_of_≺, ≼_refl, ≼_trans, ⊗_mono, ≼-min, min-≼_left,
  min-≼_right, ≼_of_≺, ≼_of_not_less, ≺_of_not_leq, products, ≼_of_parts, of_ℕ_mono,
}
use jh_holdings.Decimal.Rounding.{
  floor-divide-⊗, ≺-floor-divide-⊗, integral_down-of_floor, divide-nonneg, nonneg_parts,
}
use native.Mathlib.Nat.{mul-le-mul_right}
use jh_holdings.Core.Enums.{DecisionType}
use jh_holdings.Core.Config.{StrategyConfig}
use jh_holdings.Core.Execution.{
  bad_tick, price_not_positive, price_above_ceiling, max_chase_price,
  calculate_execution_price_ceiling, floor_ticks, floor_to_tick, capped, calculate_limit_price,
  calculate_order_quantity,
}

-- Whatever the kind of entry, a ceiling that is returned is at most the chase price.
pub ceiling-≼-chase :
    (kind : DecisionType) (close : Decimal) (config : StrategyConfig)
    (trigger average : Option Decimal) (c : Decimal)
    → calculate_execution_price_ceiling kind close config trigger average ≡ ok c
    → c ≼ max_chase_price close config
unfolding calculate_execution_price_ceiling
ceiling-≼-chase DecisionType.first_entry_candidate close config trigger average c e =
    ground (arith, ≼_refl c)
ceiling-≼-chase DecisionType.add_entry_candidate close config (some t) average c e =
    ground (arith, min-≼_left (max_chase_price close config) t)
ceiling-≼-chase DecisionType.add_entry_candidate close config none average c e = cc
ceiling-≼-chase DecisionType.rebuy_candidate close config trigger (some a) c e = ground (
  arith,
  min-≼_left (max_chase_price close config) (a ⊗ (of_ℕ 1 ⊖ config.rebuy.min_drop_from_avg)),
)
ceiling-≼-chase DecisionType.rebuy_candidate close config trigger none c e = cc
ceiling-≼-chase _ close config trigger average c e = cc

-- The floor in ticks: a whole number of ticks, and the greatest that is not above the value.
floor_ticks_lem :
    (value tick : Decimal)
    → of_ℕ 0 ≼ value
    → of_ℕ 0 ≺ tick
    → (n : ℕ) × (floor_ticks value tick ≡ of_ℕ n ⊗ tick)
      × (of_ℕ n ⊗ tick ≼ value)
      × (value ≺ of_ℕ (n + 1) ⊗ tick)
unfolding floor_ticks
floor_ticks_lem value tick p q = (
  floor (divide value tick),
  rw (integral_down-of_floor (divide value tick) (divide-nonneg value tick p)),
  floor-divide-⊗ value tick p q,
  ≺-floor-divide-⊗ value tick p q,
)

⊗-one : (a : Decimal) → a ≼ a ⊗ of_ℕ 1
unfolding ◌⊗◌
⊗-one a = ≼_of_parts a (a ⊗ of_ℕ 1) (omega arith)

-- A price raised by a rate that is not negative does not fall.
raised : (a r : Decimal) → of_ℕ 0 ≼ a → of_ℕ 0 ≼ r → a ≼ a ⊗ (of_ℕ 1 ⊕ r)
unfolding ◌⊗◌ ◌⊕◌
raised a r p q = ≼_of_parts a (a ⊗ (of_ℕ 1 ⊕ r)) (
    omega (
      arith,
      mul-le-mul_right (den a)
          (products a.down a.up r.up r.down (nonneg_parts a p) (nonneg_parts r q)),
    ))

-- With a buffer that is not negative, a limit price that is returned is a whole number of ticks,
-- at most the ceiling of the strategy and at most the buffered market price, and one tick more
-- would exceed the lesser of these two.
pub calculate_limit_price-bounds :
    (current ceiling : Decimal) (config : StrategyConfig) (tick limit : Decimal)
    → of_ℕ 0 ≼ config.global.buy_limit_buffer
    → calculate_limit_price current ceiling config tick ≡ ok limit
    → let raw = current ⊗ (of_ℕ 1 ⊕ config.global.buy_limit_buffer) in
      (n : ℕ) × (limit ≡ of_ℕ n ⊗ tick)
      × (limit ≼ ceiling)
      × (limit ≼ raw)
      × (min raw ceiling ≺ of_ℕ (n + 1) ⊗ tick)
unfolding calculate_limit_price floor_to_tick
calculate_limit_price-bounds current ceiling config tick limit buffer e =
    let raw = current ⊗ (of_ℕ 1 ⊕ config.global.buy_limit_buffer) in
    let top = min raw ceiling in
    let (positive, e1) = raise_if-eq-ok (leq current (of_ℕ 0)) price_not_positive _ e in
    let (within, e2) = raise_if-eq-ok (less ceiling current) price_above_ceiling _ e1 in
    let (tick_ok, e3) = raise_if-eq-ok (leq tick (of_ℕ 0)) bad_tick _ e2 in
    let zero_current = ≼_of_≺ (of_ℕ 0) current (≺_of_not_leq current (of_ℕ 0) positive) in
    let current_top =
      ≼-min raw ceiling current (raised current config.global.buy_limit_buffer zero_current buffer)
        (≼_of_not_less current ceiling within) in
    let (n, same, low, high) =
      floor_ticks_lem top tick (≼_trans (of_ℕ 0) current top zero_current current_top)
        (≺_of_not_leq tick (of_ℕ 0) tick_ok) in
    let at = sym (ok-injective e3) ∙ same in
    (
      n,
      at,
      rw at (≼_trans (of_ℕ n ⊗ tick) top ceiling low (min-≼_right raw ceiling)),
      rw at (≼_trans (of_ℕ n ⊗ tick) top raw low (min-≼_left raw ceiling)),
      high,
    )

per_share_pos :
    (limit fee : Decimal) → of_ℕ 0 ≺ limit → of_ℕ 0 ≼ fee → of_ℕ 0 ≺ limit ⊗ (of_ℕ 1 ⊕ fee)
per_share_pos limit fee p q = ⊗_pos limit (of_ℕ 1 ⊕ fee) p (one_more-pos fee q)

capped-le : (n : ℕ) (maximum : Option ℕ) → capped n maximum ≤ n
capped-le n none = omega arith
capped-le n (some m) = omega arith

module _ (budget limit fee : Decimal) (p : of_ℕ 0 ≼ budget) (q : of_ℕ 0 ≼ fee) where
  -- With a budget and a fee that are not negative, the shares bought cost at most the budget,
  -- fee included.
  pub calculate_order_quantity-budget :
      (maximum : Option ℕ)
      → of_ℕ (calculate_order_quantity budget limit fee maximum) ⊗ (limit ⊗ (of_ℕ 1 ⊕ fee)) ≼ budget
  unfolding calculate_order_quantity
  calculate_order_quantity-budget maximum =
      let per_share = limit ⊗ (of_ℕ 1 ⊕ fee) in
      let n = floor (divide budget per_share) in
      elim (Bool-cases (leq budget (of_ℕ 0) || leq limit (of_ℕ 0))) [
        | inl none_bought ↦ rw none_bought (nothing-≼ per_share budget p)
        | inr bought ↦
            let pos = per_share_pos limit fee (≺_of_not_leq limit (of_ℕ 0) (ground arith)) q in
            rw bought (
              ≼_trans (of_ℕ (capped n maximum) ⊗ per_share) (of_ℕ n ⊗ per_share) budget
                (⊗_mono (of_ℕ (capped n maximum)) (of_ℕ n) per_share
                  (of_ℕ_mono (capped n maximum) n (capped-le n maximum))
                  (≼_of_≺ (of_ℕ 0) per_share pos))
                (floor-divide-⊗ budget per_share p pos))
      ]

  -- With a positive budget and limit price, a fee that is not negative and no maximum, the count
  -- is the greatest: one share more would exceed the budget.
  pub calculate_order_quantity-greatest :
      of_ℕ 0 ≺ budget
      → of_ℕ 0 ≺ limit
      → budget
        ≺ of_ℕ (calculate_order_quantity budget limit fee none + 1) ⊗ (limit ⊗ (of_ℕ 1 ⊕ fee))
  unfolding calculate_order_quantity
  calculate_order_quantity-greatest b l =
      let per_share = limit ⊗ (of_ℕ 1 ⊕ fee) in
      rw (not_leq_of_≺ (of_ℕ 0) budget b, not_leq_of_≺ (of_ℕ 0) limit l)
        (≺-floor-divide-⊗ budget per_share p (per_share_pos limit fee l q))
