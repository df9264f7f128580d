-- ===== src/Core/Eligibility.antt =====
-- core/eligibility.py: the gates that every kind of entry passes.
use jh_holdings.Prelude.{ℕ, Bool, not, List, ◌++◌, ltb, if◌then◌else◌, when, is_empty}
use jh_holdings.Decimal.{Decimal, of_ℕ, leq}
use jh_holdings.Core.Enums.{MarketRegime, PositionState, safe_mode, is_state, in_states, is_red}
use jh_holdings.Core.Models.{
  ScoreResult, Reason, data_invalid, system_not_normal, safe_mode_block, state_not_eligible,
  regime_red_block, entry_score_fail, reversal_gate_fail, exposure_limit, config_safety_failure,
}
use jh_holdings.Core.Config.{StrategyConfig}

pub record EligibilityResult : Type 0 where
  pub allowed : Bool
  pub reason_codes : List Reason

-- the keyword arguments of `evaluate_eligibility`
pub record Gate : Type 0 where
  pub data_ok : Bool
  pub system_ok : Bool
  pub state : PositionState
  pub allowed_states : List PositionState
  pub regime : MarketRegime
  pub score : ScoreResult
  pub required_score : ℕ
  pub minimum_reversal_score : ℕ
  pub available_capital : Decimal

-- the reasons, in the order in which the function appends them
unfoldable pub gate_reasons : Gate → StrategyConfig → List Reason
gate_reasons g config =
    when (not g.data_ok) data_invalid
    ++ (when (not g.system_ok) system_not_normal
        ++ ((if is_state g.state safe_mode
              then when Bool.true safe_mode_block
              else when (not (in_states g.state g.allowed_states)) state_not_eligible)
            ++ (when (is_red g.regime) regime_red_block
                ++ (when (ltb g.score.total g.required_score) entry_score_fail
                    ++ (when (ltb g.score.reversal_score g.minimum_reversal_score)
                          reversal_gate_fail
                        ++ (when (leq g.available_capital (of_ℕ 0)) exposure_limit
                            ++ when config.global.stop_loss_enabled config_safety_failure))))))

unfoldable pub evaluate_eligibility : Gate → StrategyConfig → EligibilityResult
unfolding gate_reasons
evaluate_eligibility g config = record {
  allowed = is_empty (gate_reasons g config);
  reason_codes = gate_reasons g config;
}
