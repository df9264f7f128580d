-- ===== src/Core/Tests.antt =====
-- Execution, take-profit and onboarding on sample inputs.
use jh_holdings.Prelude.{ℕ, ◌+◌, ◌≤◌, ◌≡◌, refl, arith, true, none, some, [], ◌∷◌, ok}
use jh_holdings.Decimal.{
  Decimal, of_ℕ, ratio, ◌⊕◌, ◌⊖◌, ◌⊗◌, divide, leq, less, same, min, max, floor, integral_down,
  integral_ceiling, ceiling, ◌≼◌, ◌≺◌,
}
use jh_holdings.Core.Enums.{add_entry_candidate}
use jh_holdings.Core.Models.{TakeProfitPlan}
use jh_holdings.Core.Execution.{
  max_chase_price, calculate_execution_price_ceiling, calculate_limit_price,
  calculate_order_quantity, floor_to_tick, floor_ticks,
}
use jh_holdings.Core.Execution.Laws.{
  calculate_limit_price-bounds, calculate_order_quantity-budget, calculate_order_quantity-greatest,
}
use jh_holdings.Core.TakeProfit.{calculate_take_profit, take_profit_plan, cent}
use jh_holdings.Core.TakeProfit.Laws.{calculate_take_profit-split, calculate_take_profit-covers}
use jh_holdings.Core.Onboarding.{
  InitialOnboardingPolicy, validate, check_fractions, active, total_stages, onboarding_stage,
  fraction_for_stage, effective_fraction, scaled_target_quantity, effective_target_quantity,
  target_quantity,
}
use jh_holdings.Core.Onboarding.Laws.{target_quantity-within}
use jh_holdings.Core.Onboarding.Deploys.{effective_target_quantity_rises}
use jh_holdings.Core.Samples.{settings, fee}

open_decimal : Unit {0}
unfolding ◌⊕◌ ◌⊖◌ ◌⊗◌ divide leq less same min max floor integral_down integral_ceiling ceiling
open_decimal = tt

zero_≼_fee : of_ℕ 0 ≼ fee
unfolding open_decimal
zero_≼_fee = refl

abbrev ceiling_97 : Decimal
ceiling_97 = min (max_chase_price (of_ℕ 97) settings) (of_ℕ 98)

ceiling_run :
    calculate_execution_price_ceiling add_entry_candidate (of_ℕ 97) settings (some (of_ℕ 98)) none
    ≡ ok ceiling_97
unfolding calculate_execution_price_ceiling
ceiling_run = refl

abbrev limit_97 : Decimal
limit_97 = of_ℕ 9748 ⊗ cent

limit_run : calculate_limit_price (of_ℕ 97) (of_ℕ 98) settings cent ≡ ok limit_97
unfolding open_decimal calculate_limit_price floor_to_tick floor_ticks
limit_run = refl

buffer_positive : of_ℕ 0 ≼ settings.global.buy_limit_buffer
unfolding open_decimal
buffer_positive = refl

calculate_limit_price-bounds_example :
    (n : ℕ) × (limit_97 ≡ of_ℕ n ⊗ cent)
    × (limit_97 ≼ of_ℕ 98)
    × (limit_97 ≼ of_ℕ 97 ⊗ (of_ℕ 1 ⊕ settings.global.buy_limit_buffer))
    × (min (of_ℕ 97 ⊗ (of_ℕ 1 ⊕ settings.global.buy_limit_buffer)) (of_ℕ 98) ≺ of_ℕ (n + 1) ⊗ cent)
calculate_limit_price-bounds_example =
    calculate_limit_price-bounds (of_ℕ 97) (of_ℕ 98) settings cent limit_97 buffer_positive
      limit_run

zero_≼_1000 : of_ℕ 0 ≼ of_ℕ 1_000
unfolding open_decimal
zero_≼_1000 = refl

zero_≺_1000 : of_ℕ 0 ≺ of_ℕ 1_000
unfolding open_decimal
zero_≺_1000 = refl

zero_≺_97 : of_ℕ 0 ≺ of_ℕ 97
unfolding open_decimal
zero_≺_97 = refl

calculate_order_quantity-budget_example :
    of_ℕ (calculate_order_quantity (of_ℕ 1_000) (of_ℕ 97) fee (some 8)) ⊗ (of_ℕ 97 ⊗ (of_ℕ 1 ⊕ fee))
    ≼ of_ℕ 1_000
calculate_order_quantity-budget_example =
    calculate_order_quantity-budget (of_ℕ 1_000) (of_ℕ 97) fee zero_≼_1000 zero_≼_fee (some 8)

calculate_order_quantity-greatest_example :
    of_ℕ 1_000
    ≺ of_ℕ (calculate_order_quantity (of_ℕ 1_000) (of_ℕ 97) fee none + 1)
      ⊗ (of_ℕ 97 ⊗ (of_ℕ 1 ⊕ fee))
calculate_order_quantity-greatest_example =
    calculate_order_quantity-greatest (of_ℕ 1_000) (of_ℕ 97) fee zero_≼_1000 zero_≼_fee zero_≺_1000
      zero_≺_97

abbrev plan_10 : TakeProfitPlan
plan_10 = take_profit_plan (of_ℕ 97) 10 (ratio 2 100) settings cent

plan_run : calculate_take_profit (of_ℕ 97) 10 (ratio 2 100) settings cent ≡ ok plan_10
unfolding open_decimal calculate_take_profit
plan_run = refl

calculate_take_profit-split_example :
    (1 ≤ plan_10.tp1_quantity) × (plan_10.tp1_quantity + plan_10.tp2_quantity ≡ 10)
calculate_take_profit-split_example =
    calculate_take_profit-split (of_ℕ 97) 10 (ratio 2 100) settings cent plan_10 plan_run

cent_positive : of_ℕ 0 ≺ cent
unfolding open_decimal
cent_positive = refl

tp1_positive : of_ℕ 0 ≼ settings.take_profit.tp1_base
unfolding open_decimal
tp1_positive = refl

tp2_positive : of_ℕ 0 ≼ settings.take_profit.tp2_base
unfolding open_decimal
tp2_positive = refl

calculate_take_profit-covers_example :
    (of_ℕ 97 ⊗ (of_ℕ 1 ⊕ settings.take_profit.tp1_base) ≼ plan_10.tp1_price)
    × (of_ℕ 97 ⊗ (of_ℕ 1 ⊕ settings.take_profit.tp2_base) ≼ plan_10.tp2_price)
calculate_take_profit-covers_example =
    calculate_take_profit-covers (of_ℕ 97) 10 (ratio 2 100) settings cent plan_10 cent_positive
      tp1_positive tp2_positive plan_run

abbrev three_stages : InitialOnboardingPolicy
three_stages = record {
  enabled = true;
  cumulative_fractions = ratio 1 2 ∷ ratio 3 4 ∷ of_ℕ 1 ∷ [];
  minimum_sessions_between_stages = 3;
}

validate_run : validate three_stages ≡ ok tt
unfolding open_decimal validate check_fractions
validate_run = refl

half_positive : of_ℕ 0 ≼ ratio 1 2
unfolding open_decimal
half_positive = refl

effective_target_quantity_rises_example :
    (m n : ℕ) × (effective_target_quantity three_stages active 1 101 0 ≡ ok m)
    × (effective_target_quantity three_stages active 2 101 0 ≡ ok n)
    × (m ≤ n)
    × (n ≤ 101)
    × (effective_target_quantity three_stages active (total_stages three_stages) 101 0 ≡ ok 101)
effective_target_quantity_rises_example =
    effective_target_quantity_rises three_stages validate_run 101 0 1 2 (omega arith)
      (unfold total_stages in omega arith)

-- half of 101 shares, and three quarters
stage_targets :
    (effective_target_quantity three_stages active 1 101 0 ≡ ok 50)
    × (effective_target_quantity three_stages active 2 101 0 ≡ ok 75)
unfolding open_decimal total_stages onboarding_stage fraction_for_stage effective_fraction
    scaled_target_quantity effective_target_quantity floor
stage_targets = (refl, refl)

target_quantity-within_example :
    of_ℕ (target_quantity (of_ℕ 1_000) (ratio 1 2) (of_ℕ 97) fee) ⊗ (of_ℕ 97 ⊗ (of_ℕ 1 ⊕ fee))
    ≼ of_ℕ 1_000 ⊗ ratio 1 2
target_quantity-within_example =
    target_quantity-within (of_ℕ 1_000) (ratio 1 2) (of_ℕ 97) fee zero_≼_fee zero_≺_1000
      half_positive
