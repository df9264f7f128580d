-- ===== src/Core/TakeProfit.antt =====
-- core/take_profit.py and core/remainder_exit.py: the two take-profit legs and the remainder exit.
pub mod Laws
use jh_holdings.Prelude.{
  ℕ, ◌-◌, ◌≤◌, Bool, true, false, ◌&&◌, leb, ◌==◌, if◌then◌else◌, Result, ok, raise, ◌>>=◌, ◌>>◌,
  raise_if,
}
use jh_holdings.Decimal.{
  Decimal, of_ℕ, ratio, ◌⊕◌, ◌⊗◌, divide, leq, less, max, ceiling, integral_ceiling,
}
use jh_holdings.Core.Models.{TakeProfitPlan}
use jh_holdings.Core.Config.{StrategyConfig, RemainderExitConfig}
use Prim.Native.Nat.{min as least, max as greatest}

pub data TakeProfitError : Type 0 where
  average_not_positive quantity_not_positive negative_sessions negative_target : TakeProfitError

unfoldable pub ceil_to_tick : Decimal → Decimal → Decimal
ceil_to_tick value tick = integral_ceiling (divide value tick) ⊗ tick

-- the base rate, or the ATR multiple where that is greater and in use
unfoldable pub leg_rate : Bool → Decimal → Decimal → Decimal → Decimal
leg_rate use_atr base multiplier atr_pct = if use_atr then max base (multiplier ⊗ atr_pct) else base

-- `max(1, min(quantity, ceil(quantity * tp1_fraction)))`
unfoldable pub first_leg : ℕ → Decimal → ℕ
first_leg quantity fraction = greatest 1 (least quantity (ceiling (of_ℕ quantity ⊗ fraction)))

unfoldable pub take_profit_plan : Decimal → ℕ → Decimal → StrategyConfig → Decimal → TakeProfitPlan
take_profit_plan average quantity atr_pct config tick =
    let tp = config.take_profit in
    let tp1_rate = leg_rate tp.use_atr tp.tp1_base tp.tp1_atr_multiplier atr_pct in
    let tp2_rate = leg_rate tp.use_atr tp.tp2_base tp.tp2_atr_multiplier atr_pct in
    let tp1_quantity = first_leg quantity tp.tp1_fraction in
    record {
      average_price = average;
      atr_pct = atr_pct;
      tp1_rate = tp1_rate;
      tp2_rate = tp2_rate;
      tp1_price = ceil_to_tick (average ⊗ (of_ℕ 1 ⊕ tp1_rate)) tick;
      tp2_price = ceil_to_tick (average ⊗ (of_ℕ 1 ⊕ tp2_rate)) tick;
      tp1_quantity = tp1_quantity;
      tp2_quantity = quantity - tp1_quantity;
    }

unfoldable pub calculate_take_profit :
    Decimal → ℕ → Decimal → StrategyConfig → Decimal → Result TakeProfitError TakeProfitPlan
calculate_take_profit average quantity atr_pct config tick = do
  raise_if (leq average (of_ℕ 0)) average_not_positive
  raise_if (quantity == 0) quantity_not_positive
  ok (take_profit_plan average quantity atr_pct config tick)

-- the default tick
abbrev pub cent : Decimal
cent = ratio 1 100

-- `remainder_exit_due`; a count of sessions is not negative here, so its check never fires
unfoldable pub remainder_exit_due : ℕ → RemainderExitConfig → Bool
remainder_exit_due elapsed rule = rule.enabled && leb rule.wait_trading_days elapsed

unfoldable pub remainder_exit_price : Decimal → RemainderExitConfig → Result TakeProfitError Decimal
remainder_exit_price average rule = do
  raise_if (leq average (of_ℕ 0)) average_not_positive
  raise_if (less rule.target_from_avg (of_ℕ 0)) negative_target
  ok (ceil_to_tick (average ⊗ (of_ℕ 1 ⊕ rule.target_from_avg)) cent)
