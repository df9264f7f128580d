-- ===== src/Core/Strategy/Tests.antt =====
-- The decisions of core/strategy.py on sample inputs.
use jh_holdings.Prelude.{◌≡◌, ◌↔◌, refl, true, false, [], ◌∷◌, arith, ok, raise}
use jh_holdings.Decimal.{
  Decimal, of_ℕ, ratio, ◌⊕◌, ◌⊖◌, ◌⊗◌, leq, less, same, min, max, quantize, half_even, round_half,
  ◌≼◌,
}
use jh_holdings.Decimal.Quantize.{half_unit}
use jh_holdings.Core.Enums.{holding_1st, partial_tp_1, PositionState-discrete}
use jh_holdings.Core.Config.{StrategyConfig}
use jh_holdings.Core.Models.{TradeDecision}
use jh_holdings.Core.Eligibility.{gate_reasons}
use jh_holdings.Core.Strategy.{
  score_to_exposure, update_cycle_exposure_cap, stage_amounts, calculate_stage_budget,
  soxl_sector_guard_blocks, first_entry_trend_guard_blocks, entry_gate, entry_decision,
  evaluate_entry, expected_holding_state, additional_gate, stage_trigger, additional_decision,
  evaluate_additional_entry, evaluate_reoversold, rebuy_gate, rebuy_available, rebuy_trigger,
  rebuy_budget, evaluate_rebuy, evaluate_stages, evaluate_strategy, Inputs, unknown_holding_state,
}
use jh_holdings.Core.Strategy.Gates.{Passes}
use jh_holdings.Core.Strategy.Decisions.{
  Unblocked, MayRebuy, evaluate_entry-allowed_iff, additional_decision-allowed,
  evaluate_rebuy-allowed_iff, Triggered,
}
use jh_holdings.Core.Strategy.Dispatch.{IsSound, evaluate_strategy-IsSound}
use jh_holdings.Core.Strategy.Total.{HasStages, evaluate_strategy-returns}
use jh_holdings.Core.Strategy.Numbers.{evaluate_strategy_by_numbers}
use jh_holdings.Core.Strategy.Budget.{staged-budget-≼, update_cycle_exposure_cap-bounds}
use jh_holdings.Core.Samples.{
  settings, first_inputs, second_inputs, stage_2, position_in, snapshot_at,
}

open_strategy : Unit {0}
unfolding ◌⊕◌ ◌⊖◌ ◌⊗◌ leq less same min max quantize half_even round_half gate_reasons
    PositionState-discrete score_to_exposure update_cycle_exposure_cap stage_amounts
    calculate_stage_budget soxl_sector_guard_blocks first_entry_trend_guard_blocks entry_gate
    entry_decision evaluate_entry expected_holding_state additional_gate stage_trigger
    additional_decision evaluate_additional_entry evaluate_reoversold rebuy_gate rebuy_available
    rebuy_trigger rebuy_budget evaluate_rebuy evaluate_stages evaluate_strategy
open_strategy = tt

abbrev cap : Decimal
cap = update_cycle_exposure_cap (of_ℕ 20_000) 84 settings

-- the decision on the second stage, 3 percent below the anchor
abbrev second_decision : TradeDecision
second_decision =
    additional_decision second_inputs 2 stage_2 holding_1st cap
      (stage_amounts cap (ratio 7 10) (of_ℕ 8_000)) settings

abbrev first_decision : TradeDecision
first_decision =
    entry_decision first_inputs (score_to_exposure 84 settings)
      (stage_amounts (score_to_exposure 84 settings) (ratio 4 10) (of_ℕ 0)) settings

second_run : evaluate_strategy second_inputs settings ≡ ok second_decision
unfolding open_strategy
second_run = refl

second_allowed : second_decision.allowed ≡ true
unfolding open_strategy
second_allowed = refl

first_run : evaluate_entry first_inputs settings ≡ ok first_decision
unfolding open_strategy
first_run = refl

settings-HasStages : HasStages settings
settings-HasStages = ground arith

evaluate_strategy-IsSound_example : IsSound second_inputs settings second_decision
evaluate_strategy-IsSound_example =
    evaluate_strategy-IsSound second_inputs settings second_decision second_run second_allowed

evaluate_strategy-returns_example :
    (d : TradeDecision) × (evaluate_strategy first_inputs settings ≡ ok d)
evaluate_strategy-returns_example =
    evaluate_strategy-returns first_inputs settings settings-HasStages

evaluate_entry-allowed_iff_example : (first_decision.allowed ≡ true) ↔ (
    Passes (entry_gate first_inputs first_decision.planned_budget settings) settings
    × Unblocked first_inputs settings)
evaluate_entry-allowed_iff_example =
    evaluate_entry-allowed_iff first_inputs settings first_decision first_run

abbrev with_rebuy : StrategyConfig
with_rebuy = record settings { rebuy = record settings.rebuy { enabled = true } }

-- half of the position is sold, and the price is back 4 percent below the average
abbrev rebuy_inputs : Inputs
rebuy_inputs = record second_inputs {
  snapshot = snapshot_at (of_ℕ 96);
  position = record (position_in partial_tp_1 (of_ℕ 8_000)) {
    rebuy_recovery_armed = true;
    tp1_filled_qty = 40;
  };
}

rebuy_run : (evaluate_rebuy rebuy_inputs with_rebuy).allowed ≡ true
unfolding open_strategy
rebuy_run = refl

evaluate_rebuy-allowed_iff_example : ((evaluate_rebuy rebuy_inputs with_rebuy).allowed ≡ true) ↔ (
    Passes (rebuy_gate rebuy_inputs (rebuy_available rebuy_inputs) with_rebuy) with_rebuy
    × MayRebuy rebuy_inputs with_rebuy)
evaluate_rebuy-allowed_iff_example = evaluate_rebuy-allowed_iff rebuy_inputs with_rebuy

additional_decision-allowed_example : (second_decision.allowed ≡ true) ↔ (
    Passes
      (additional_gate second_inputs holding_1st stage_2
        (stage_amounts cap (ratio 7 10) (of_ℕ 8_000)).1
        settings)
      settings
    × Triggered second_inputs stage_2
    × (soxl_sector_guard_blocks second_inputs.snapshot.symbol 2 second_inputs.sector_benchmarks
          settings
        ≡ false))
additional_decision-allowed_example =
    additional_decision-allowed second_inputs settings 2 stage_2 holding_1st cap
      (stage_amounts cap (ratio 7 10) (of_ℕ 8_000))

update_cycle_exposure_cap-bounds_example :
    (of_ℕ 15_000 ≼ update_cycle_exposure_cap (of_ℕ 15_000) 84 settings)
    × (update_cycle_exposure_cap (of_ℕ 15_000) 84 settings ≼ of_ℕ 20_000)
update_cycle_exposure_cap-bounds_example =
    update_cycle_exposure_cap-bounds (of_ℕ 15_000) 84 settings (unfold less leq in refl)
      (unfold leq in refl)

abbrev target_2 : Decimal
target_2 = ratio 1_400_000 100

abbrev budget_2 : Decimal
budget_2 = ratio 600_000 100

stage_2_run : calculate_stage_budget (of_ℕ 20_000) 2 (of_ℕ 8_000) settings ≡ ok (target_2, budget_2)
unfolding open_strategy
stage_2_run = refl

staged-budget-≼_example : of_ℕ 8_000 ⊕ budget_2 ≼ target_2 ⊕ half_unit 99
staged-budget-≼_example =
    staged-budget-≼ (of_ℕ 20_000) (of_ℕ 8_000) 2 settings target_2 budget_2 stage_2_run
      (unfold leq in refl)

-- five additional stages, the last of them numbered 6
abbrev six_stages : StrategyConfig
six_stages = record settings {
  additional_entry =
      (2, stage_2) ∷ ((3, stage_2) ∷ ((4, stage_2) ∷ ((5, stage_2) ∷ ((6, stage_2) ∷ []))));
}

evaluate_strategy_by_numbers_example :
    evaluate_strategy rebuy_inputs six_stages ≡ raise unknown_holding_state
evaluate_strategy_by_numbers_example = evaluate_strategy_by_numbers rebuy_inputs six_stages refl
