-- ===== src/Core/TakeProfit/Laws.antt =====
-- The two legs of a take-profit plan.
use jh_holdings.Prelude.{
  ℕ, ◌+◌, ◌≤◌, ◌≡◌, subst, Bool, true, false, arith, ok, ◌==◌, raise_if-eq-ok, ok-injective,
}
use jh_holdings.Decimal.{Decimal, of_ℕ, ◌⊕◌, ◌⊗◌, leq, ◌≼◌, ◌≺◌, divide}
use jh_holdings.Decimal.Laws.{
  ⊗_mono_right, ⊕_mono, ⊗_pos, one_more-pos, max-≽_left, ≼_refl, ≺_of_not_leq, ≼_of_≺, ≼_trans,
}
use jh_holdings.Decimal.Rounding.{≼-ceiling-divide-⊗, integral_ceiling-of_ceiling, divide-nonneg}
use jh_holdings.Core.Models.{TakeProfitPlan}
use jh_holdings.Core.Config.{StrategyConfig}
use jh_holdings.Core.TakeProfit.{
  average_not_positive, quantity_not_positive, ceil_to_tick, leg_rate, first_leg, take_profit_plan,
  calculate_take_profit,
}

-- A plan that is returned splits the whole position in two legs, the first of at least one
-- share.
pub calculate_take_profit-split :
    (average : Decimal) (quantity : ℕ) (atr_pct : Decimal) (config : StrategyConfig)
    (tick : Decimal) (plan : TakeProfitPlan)
    → calculate_take_profit average quantity atr_pct config tick ≡ ok plan
    → (1 ≤ plan.tp1_quantity) × (plan.tp1_quantity + plan.tp2_quantity ≡ quantity)
unfolding calculate_take_profit take_profit_plan first_leg
calculate_take_profit-split average quantity atr_pct config tick plan e =
    let (_, e1) = raise_if-eq-ok (leq average (of_ℕ 0)) average_not_positive _ e in
    let (some_held, e2) = raise_if-eq-ok (quantity == 0) quantity_not_positive _ e1 in
    subst
      (λ (p : TakeProfitPlan). (1 ≤ p.tp1_quantity) × (p.tp1_quantity + p.tp2_quantity ≡ quantity))
      (ok-injective e2) (ground arith, ground arith)

-- Rounding up in ticks never goes below the value.
pub ≼-ceil_to_tick :
    (value tick : Decimal) → of_ℕ 0 ≼ value → of_ℕ 0 ≺ tick → value ≼ ceil_to_tick value tick
unfolding ceil_to_tick
≼-ceil_to_tick value tick p q =
    rw (integral_ceiling-of_ceiling (divide value tick) (divide-nonneg value tick p))
      (≼-ceiling-divide-⊗ value tick p q)

raised : (a r : Decimal) → of_ℕ 0 ≺ a → of_ℕ 0 ≼ r → of_ℕ 0 ≺ a ⊗ (of_ℕ 1 ⊕ r)
raised a r p q = ⊗_pos a (of_ℕ 1 ⊕ r) p (one_more-pos r q)

leg_rate-≽ :
    (use_atr : Bool) (base multiplier atr_pct : Decimal)
    → base ≼ leg_rate use_atr base multiplier atr_pct
unfolding leg_rate
leg_rate-≽ true base multiplier atr_pct = max-≽_left base (multiplier ⊗ atr_pct)
leg_rate-≽ false base multiplier atr_pct = ≼_refl base

leg_covers :
    (average atr_pct tick : Decimal) (use_atr : Bool) (base multiplier : Decimal)
    → of_ℕ 0 ≺ average
    → of_ℕ 0 ≺ tick
    → of_ℕ 0 ≼ base
    → average ⊗ (of_ℕ 1 ⊕ base)
      ≼ ceil_to_tick (average ⊗ (of_ℕ 1 ⊕ leg_rate use_atr base multiplier atr_pct)) tick
leg_covers average atr_pct tick use_atr base multiplier held t b =
    let rate = leg_rate use_atr base multiplier atr_pct in
    let more = leg_rate-≽ use_atr base multiplier atr_pct in
    let target = average ⊗ (of_ℕ 1 ⊕ rate) in
    let rate_pos = ≼_trans (of_ℕ 0) base rate b more in
    ≼_trans (average ⊗ (of_ℕ 1 ⊕ base)) target (ceil_to_tick target tick)
      (⊗_mono_right average (of_ℕ 1 ⊕ base) (of_ℕ 1 ⊕ rate)
        (⊕_mono (of_ℕ 1) (of_ℕ 1) base rate (≼_refl (of_ℕ 1)) more) (≼_of_≺ (of_ℕ 0) average held))
      (≼-ceil_to_tick target tick (≼_of_≺ (of_ℕ 0) target (raised average rate held rate_pos)) t)

-- With a positive tick and base rates that are not negative, each leg of a plan that is returned
-- has a limit at or above the average price raised by its base rate.
pub calculate_take_profit-covers :
    (average : Decimal) (quantity : ℕ) (atr_pct : Decimal) (config : StrategyConfig)
    (tick : Decimal) (plan : TakeProfitPlan)
    → of_ℕ 0 ≺ tick
    → of_ℕ 0 ≼ config.take_profit.tp1_base
    → of_ℕ 0 ≼ config.take_profit.tp2_base
    → calculate_take_profit average quantity atr_pct config tick ≡ ok plan
    → (average ⊗ (of_ℕ 1 ⊕ config.take_profit.tp1_base) ≼ plan.tp1_price)
      × (average ⊗ (of_ℕ 1 ⊕ config.take_profit.tp2_base) ≼ plan.tp2_price)
unfolding calculate_take_profit take_profit_plan
calculate_take_profit-covers average quantity atr_pct config tick plan t b1 b2 e =
    let tp = config.take_profit in
    let (positive, e1) = raise_if-eq-ok (leq average (of_ℕ 0)) average_not_positive _ e in
    let (_, e2) = raise_if-eq-ok (quantity == 0) quantity_not_positive _ e1 in
    let held = ≺_of_not_leq average (of_ℕ 0) positive in
    subst
      (λ (p : TakeProfitPlan).
        (average ⊗ (of_ℕ 1 ⊕ tp.tp1_base) ≼ p.tp1_price)
        × (average ⊗ (of_ℕ 1 ⊕ tp.tp2_base) ≼ p.tp2_price))
      (ok-injective e2)
      (
        leg_covers average atr_pct tick tp.use_atr tp.tp1_base tp.tp1_atr_multiplier held t b1,
        leg_covers average atr_pct tick tp.use_atr tp.tp2_base tp.tp2_atr_multiplier held t b2,
      )
