-- ===== src/Core/Strategy/Loop.antt =====
-- core/strategy.py: `evaluate_strategy`, the choice by the state of the position.
use jh_holdings.Prelude.{ℕ, ◌-◌, none, List, [], ◌∷◌, false, leb, if◌then◌else◌, Result, ok, ◌>>=◌}
use jh_holdings.Decimal.{of_ℕ}
use jh_holdings.Core.Enums.{empty, partial_tp_1, is_state, no_action}
use jh_holdings.Core.Models.{TradeDecision, state_not_eligible}
use jh_holdings.Core.Config.{StrategyConfig, StageRule}
use jh_holdings.Core.Strategy.Exposure.{StrategyError, unknown_holding_state, or_raise}
use jh_holdings.Core.Strategy.Entry.{
  Inputs, evaluate_entry, expected_holding_state, evaluate_additional_entry,
}
use jh_holdings.Core.Strategy.Rebuy.{evaluate_rebuy}

-- `sorted(stages)`, by insertion
abbrev pub insert_stage : ℕ → List ℕ → List ℕ
insert_stage n [] = n ∷ []
insert_stage n (m ∷ ms) = if leb n m then n ∷ (m ∷ ms) else m ∷ insert_stage n ms

abbrev pub sorted_stages : List (ℕ × StageRule) → List ℕ
sorted_stages [] = []
sorted_stages ((stage, rule) ∷ rest) = insert_stage stage (sorted_stages rest)

unfoldable pub not_eligible : TradeDecision
not_eligible = record {
  action = no_action;
  allowed = false;
  reason_codes = state_not_eligible ∷ [];
  target_stage = none;
  cycle_exposure_cap = of_ℕ 0;
  target_cumulative_capital = of_ℕ 0;
  planned_budget = of_ℕ 0;
  stage_trigger_price = none;
}

-- the `for` loop over the stages, and what follows it
unfoldable pub evaluate_stages :
    List ℕ → Inputs → StrategyConfig → Result StrategyError TradeDecision
evaluate_stages [] i config =
    if is_state i.position.state partial_tp_1 then ok (evaluate_rebuy i config) else ok not_eligible
evaluate_stages (stage ∷ stages) i config = do
  holding ← or_raise (expected_holding_state (stage - 1)) unknown_holding_state
  let rest = evaluate_stages stages i config
  if is_state i.position.state holding then evaluate_additional_entry i stage config else rest

unfoldable pub evaluate_strategy : Inputs → StrategyConfig → Result StrategyError TradeDecision
evaluate_strategy i config =
    if is_state i.position.state empty
    then evaluate_entry i config
    else evaluate_stages (sorted_stages config.additional_entry) i config
