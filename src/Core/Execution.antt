-- ===== src/Core/Execution.antt =====
-- core/execution.py: the price ceiling of a buy, its limit price and its share count.
pub mod Laws
use jh_holdings.Prelude.{
  ℕ, Option, none, some, Bool, true, false, ◌||◌, if◌then◌else◌, Result, ok, raise, ◌>>=◌, ◌>>◌,
  raise_if,
}
use jh_holdings.Decimal.{
  Decimal, of_ℕ, ratio, ◌⊕◌, ◌⊖◌, ◌⊗◌, divide, leq, less, min, floor, integral_down,
}
use jh_holdings.Core.Enums.{
  DecisionType, first_entry_candidate, add_entry_candidate, rebuy_candidate,
}
use jh_holdings.Core.Config.{StrategyConfig}
use Prim.Native.Nat.{min as least}

pub data ExecutionError : Type 0 where
  no_stage_trigger no_average_price no_ceiling_for_action : ExecutionError
  bad_tick price_not_positive price_above_ceiling : ExecutionError

unfoldable pub max_chase_price : Decimal → StrategyConfig → Decimal
max_chase_price signal_close config = signal_close ⊗ (of_ℕ 1 ⊕ config.global.entry_max_chase_pct)

abbrev or_else :
    Option Decimal → ExecutionError → (Decimal → Decimal) → Result ExecutionError Decimal
or_else none e f = raise e
or_else (some x) e f = ok (f x)

unfoldable pub calculate_execution_price_ceiling :
    DecisionType
    → Decimal
    → StrategyConfig
    → Option Decimal
    → Option Decimal
    → Result ExecutionError Decimal
calculate_execution_price_ceiling first_entry_candidate close config trigger average =
    ok (max_chase_price close config)
calculate_execution_price_ceiling add_entry_candidate close config trigger average =
    or_else trigger no_stage_trigger (λ t. min (max_chase_price close config) t)
calculate_execution_price_ceiling rebuy_candidate close config trigger average =
    or_else average no_average_price
      (λ a. min (max_chase_price close config) (a ⊗ (of_ℕ 1 ⊖ config.rebuy.min_drop_from_avg)))
calculate_execution_price_ceiling _ close config trigger average = raise no_ceiling_for_action

-- `(value / tick).to_integral_value(ROUND_DOWN) * tick`
unfoldable pub floor_ticks : Decimal → Decimal → Decimal
floor_ticks value tick = integral_down (divide value tick) ⊗ tick

unfoldable pub floor_to_tick : Decimal → Decimal → Result ExecutionError Decimal
floor_to_tick value tick = do raise_if (leq tick (of_ℕ 0)) bad_tick; ok (floor_ticks value tick)

unfoldable pub calculate_limit_price :
    Decimal → Decimal → StrategyConfig → Decimal → Result ExecutionError Decimal
calculate_limit_price current ceiling config tick = do
  raise_if (leq current (of_ℕ 0)) price_not_positive
  raise_if (less ceiling current) price_above_ceiling
  let raw = current ⊗ (of_ℕ 1 ⊕ config.global.buy_limit_buffer)
  floor_to_tick (min raw ceiling) tick

-- the whole shares that the budget pays for; a maximum, where there is one, caps them
abbrev pub capped : ℕ → Option ℕ → ℕ
capped quantity none = quantity
capped quantity (some m) = least quantity m

unfoldable pub calculate_order_quantity : Decimal → Decimal → Decimal → Option ℕ → ℕ
calculate_order_quantity budget limit_price buy_fee maximum =
    if leq budget (of_ℕ 0) || leq limit_price (of_ℕ 0)
    then 0
    else capped (floor (divide budget (limit_price ⊗ (of_ℕ 1 ⊕ buy_fee)))) maximum
