-- ===== src/Core/Strategy/Entry.antt =====
-- core/strategy.py: the first and the additional entries.
use jh_holdings.Prelude.{
  ℕ, zero, suc, ◌-◌, Option, none, some, List, [], ◌∷◌, ◌++◌, Bool, true, ◌==◌, if◌then◌else◌, when,
  is_empty, Result, ok, ◌>>=◌,
}
use jh_holdings.Decimal.{Decimal, of_ℕ, ◌⊖◌, ◌⊗◌, leq, less, quantize}
use jh_holdings.Core.Enums.{
  PositionState, empty, holding_1st, holding_2nd, holding_3rd, holding_4th, DecisionType, no_action,
  first_entry_candidate, add_entry_candidate,
}
use jh_holdings.Core.Models.{
  IndicatorSnapshot, ScoreResult, PositionSnapshot, TradeDecision, Reason, soxl_sector_guard,
  first_entry_trend_guard, anchor_missing, stage_trigger_not_met, entry_score_pass,
  additional_entry_pass,
}
use jh_holdings.Core.Config.{StrategyConfig, StageRule}
use jh_holdings.Core.Eligibility.{Gate, gate_reasons}
use jh_holdings.Core.Strategy.Exposure.{
  StrategyError, unsupported_stage, unknown_holding_state, score_to_exposure,
  update_cycle_exposure_cap, or_raise, calculate_stage_budget,
}
use jh_holdings.Core.Strategy.Guards.{
  Benchmarks, soxl_sector_guard_blocks, first_entry_trend_guard_blocks,
}

-- the inputs that every evaluation shares
pub record Inputs : Type 0 where
  pub snapshot : IndicatorSnapshot
  pub score : ScoreResult
  pub position : PositionSnapshot
  pub data_ok : Bool
  pub system_ok : Bool
  pub sector_benchmarks : Benchmarks

-- `tuple(reasons) or (passed,)`
abbrev pub or_passed : List Reason → Reason → List Reason
or_passed [] passed = passed ∷ []
or_passed (r ∷ rest) passed = r ∷ rest

-- what differs between the three kinds of entry, turned into a decision
abbrev pub decide_on :
    DecisionType
    → List Reason
    → Reason
    → Option ℕ
    → Decimal
    → Decimal
    → Decimal
    → Option Decimal
    → TradeDecision
decide_on action reasons passed stage cap target budget trigger = record {
  action = if is_empty reasons then action else no_action;
  allowed = is_empty reasons;
  reason_codes = or_passed reasons passed;
  target_stage = if is_empty reasons then stage else none;
  cycle_exposure_cap = cap;
  target_cumulative_capital = target;
  planned_budget = budget;
  stage_trigger_price = trigger;
}

unfoldable pub entry_gate : Inputs → Decimal → StrategyConfig → Gate
entry_gate i budget config = record {
  data_ok = i.data_ok;
  system_ok = i.system_ok;
  state = i.position.state;
  allowed_states = empty ∷ [];
  regime = i.score.regime;
  score = i.score;
  required_score = config.global.entry_score;
  minimum_reversal_score = config.global.minimum_reversal_score;
  available_capital = budget;
}

-- the decision of `evaluate_entry`, once its target and budget are known
unfoldable pub entry_decision :
    Inputs → Decimal → Decimal × Decimal → StrategyConfig → TradeDecision
entry_decision i cycle_cap (target, budget) config =
    let reasons =
      gate_reasons (entry_gate i budget config) config
      ++ (when (soxl_sector_guard_blocks i.snapshot.symbol 1 i.sector_benchmarks config)
            soxl_sector_guard
          ++ when (first_entry_trend_guard_blocks i.snapshot config) first_entry_trend_guard) in
    decide_on first_entry_candidate reasons entry_score_pass (some 1) cycle_cap target budget none

unfoldable pub evaluate_entry : Inputs → StrategyConfig → Result StrategyError TradeDecision
evaluate_entry i config = do
  let cycle_cap = score_to_exposure i.score.total config
  amounts ← calculate_stage_budget cycle_cap 1 (of_ℕ 0) config
  ok (entry_decision i cycle_cap amounts config)

-- `expected_holding_state`: a `KeyError` outside 1 to 4
unfoldable pub expected_holding_state : ℕ → Option PositionState
expected_holding_state (suc zero) = some holding_1st
expected_holding_state (suc (suc zero)) = some holding_2nd
expected_holding_state (suc (suc (suc zero))) = some holding_3rd
expected_holding_state (suc (suc (suc (suc zero)))) = some holding_4th
expected_holding_state _ = none

-- `config.additional_entry.stages[stage]`
abbrev pub stage_rule : ℕ → List (ℕ × StageRule) → Option StageRule
stage_rule stage [] = none
stage_rule stage ((key, rule) ∷ rest) = if key == stage then some rule else stage_rule stage rest

unfoldable pub additional_gate :
    Inputs → PositionState → StageRule → Decimal → StrategyConfig → Gate
additional_gate i holding rule budget config = record {
  data_ok = i.data_ok;
  system_ok = i.system_ok;
  state = i.position.state;
  allowed_states = holding ∷ [];
  regime = i.score.regime;
  score = i.score;
  required_score = rule.min_score;
  minimum_reversal_score = config.global.minimum_reversal_score;
  available_capital = budget;
}

-- `anchor_price * (Decimal("1") - min_drop_from_anchor)`
unfoldable pub stage_trigger : PositionSnapshot → StageRule → Decimal
stage_trigger position rule = position.anchor_price ⊗ (of_ℕ 1 ⊖ rule.min_drop_from_anchor)

-- the decision of `evaluate_additional_entry`, once every lookup has succeeded
unfoldable pub additional_decision :
    Inputs
    → ℕ
    → StageRule
    → PositionState
    → Decimal
    → Decimal × Decimal
    → StrategyConfig
    → TradeDecision
additional_decision i target_stage rule holding new_cap (target, budget) config =
    let trigger = stage_trigger i.position rule in
    let reasons =
      gate_reasons (additional_gate i holding rule budget config) config
      ++ ((if leq i.position.anchor_price (of_ℕ 0)
            then when true anchor_missing
            else when (less trigger i.snapshot.close) stage_trigger_not_met)
          ++ when
              (soxl_sector_guard_blocks i.snapshot.symbol target_stage i.sector_benchmarks config)
              soxl_sector_guard) in
    decide_on add_entry_candidate reasons additional_entry_pass (some target_stage) new_cap target
      budget (some (quantize 10000 trigger))

unfoldable pub evaluate_additional_entry :
    Inputs → ℕ → StrategyConfig → Result StrategyError TradeDecision
evaluate_additional_entry i target_stage config = do
  rule ← or_raise (stage_rule target_stage config.additional_entry) unsupported_stage
  let new_cap = update_cycle_exposure_cap i.position.cycle_exposure_cap i.score.total config
  amounts ← calculate_stage_budget new_cap target_stage i.position.staged_entry_capital config
  holding ← or_raise (expected_holding_state (target_stage - 1)) unknown_holding_state
  ok (additional_decision i target_stage rule holding new_cap amounts config)
