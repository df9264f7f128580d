-- ===== src/Core/Models.antt =====
-- core/models.py. Prices, amounts, rates and indicator floats are `Decimal`s; a date is its
-- ordinal. Ticker symbols are upper-case text, so that `.upper()` leaves them alone.
use jh_holdings.Prelude.{ℕ, String, Option, List, Bool}
use jh_holdings.Decimal.{Decimal}
use jh_holdings.Core.Enums.{MarketRegime, SignalGrade, DecisionType, PositionState, RiskReviewLevel}

pub record IndicatorSnapshot : Type 0 where
  pub symbol : String
  pub trade_date : ℕ
  pub open_price : Decimal
  pub high : Decimal
  pub low : Decimal
  pub close : Decimal
  pub previous_close : Decimal
  pub volume : ℕ
  pub cci5 : Decimal
  pub cci10 : Decimal
  pub rsi5 : Decimal
  pub rsi14 : Decimal
  pub ema5 : Decimal
  pub ema20 : Decimal
  pub ema60 : Decimal
  pub bb_lower : Decimal
  pub atr14 : Decimal
  pub atr_pct : Decimal
  pub volume_ratio : Decimal
  pub close_position : Decimal

-- The five calibrated components and the five raw ones.
pub record ScoreResult : Type 0 where
  pub total : ℕ
  pub grade : SignalGrade
  pub regime : MarketRegime
  pub regime_score : ℕ
  pub oversold_score : ℕ
  pub reversal_score : ℕ
  pub volume_score : ℕ
  pub atr_score : ℕ
  pub raw_regime_score : ℕ
  pub raw_oversold_score : ℕ
  pub raw_reversal_score : ℕ
  pub raw_volume_score : ℕ
  pub raw_atr_score : ℕ

pub record PositionSnapshot : Type 0 where
  pub symbol : String
  pub state : PositionState
  pub cycle_id : Option String
  pub quantity : ℕ
  pub average_price : Decimal
  pub current_cost_basis : Decimal
  pub cycle_exposure_cap : Decimal
  pub staged_entry_capital : Decimal
  pub cash_remaining : Decimal
  pub entry_count : ℕ
  pub anchor_price : Decimal
  pub last_entry_price : Decimal
  pub last_entry_date : Option ℕ
  pub rebuy_count : ℕ
  pub rebuy_recovery_armed : Bool
  pub tp1_filled_qty : ℕ
  pub risk_review_level : RiskReviewLevel
  pub version : ℕ

-- why a decision is not allowed, and why it is
pub data Reason : Type 0 where
  data_invalid system_not_normal safe_mode_block state_not_eligible regime_red_block : Reason
  entry_score_fail reversal_gate_fail exposure_limit config_safety_failure : Reason
  soxl_sector_guard first_entry_trend_guard anchor_missing stage_trigger_not_met : Reason
  rebuy_disabled rebuy_already_used rebuy_recovery_not_armed reoversold_not_met : Reason
  rebuy_price_not_met entry_score_pass additional_entry_pass rebuy_pass : Reason

pub record TradeDecision : Type 0 where
  pub action : DecisionType
  pub allowed : Bool
  pub reason_codes : List Reason
  pub target_stage : Option ℕ
  pub cycle_exposure_cap : Decimal
  pub target_cumulative_capital : Decimal
  pub planned_budget : Decimal
  pub stage_trigger_price : Option Decimal

pub record TakeProfitPlan : Type 0 where
  pub average_price : Decimal
  pub atr_pct : Decimal
  pub tp1_rate : Decimal
  pub tp2_rate : Decimal
  pub tp1_price : Decimal
  pub tp2_price : Decimal
  pub tp1_quantity : ℕ
  pub tp2_quantity : ℕ
