-- ===== src/Core/Config.antt =====
-- config.py: the configuration records that the core reads. A setting that the source takes from
-- a dictionary with a default is a field, with the default already filled in.
use jh_holdings.Prelude.{ℕ, String, List, Bool}
use jh_holdings.Decimal.{Decimal}

pub record GlobalConfig : Type 0 where
  pub capital_per_symbol : Decimal
  pub buy_fee : Decimal
  pub sell_fee : Decimal
  pub approval_required : Bool
  pub stop_loss_enabled : Bool
  pub entry_score : ℕ
  pub minimum_reversal_score : ℕ
  pub entry_max_chase_pct : Decimal
  pub buy_limit_buffer : Decimal

pub record PositionConfig : Type 0 where
  pub stage_weights : List Decimal
  pub cumulative_weights : List Decimal

pub record ExposureConfig : Type 0 where
  pub score_82_87 : Decimal
  pub score_88_91 : Decimal
  pub score_92_100 : Decimal
  pub allow_cap_increase : Bool
  pub allow_cap_decrease_during_cycle : Bool

pub record StageRule : Type 0 where
  pub min_drop_from_anchor : Decimal
  pub min_score : ℕ

pub record RemainderExitConfig : Type 0 where
  pub enabled : Bool
  pub wait_trading_days : ℕ
  pub target_from_avg : Decimal

pub record TakeProfitConfig : Type 0 where
  pub tp1_base : Decimal
  pub tp1_fraction : Decimal
  pub tp2_base : Decimal
  pub use_atr : Bool
  pub tp1_atr_multiplier : Decimal
  pub tp2_atr_multiplier : Decimal
  pub remainder_exit : RemainderExitConfig

-- `RebuyConditionConfig`: `mode == "any"`, the two thresholds and the switch of its `values`
pub record RebuyConditionConfig : Type 0 where
  pub mode_any : Bool
  pub cci5 : Decimal
  pub rsi5 : Decimal
  pub close_test : Bool

pub record RebuyConfig : Type 0 where
  pub enabled : Bool
  pub minimum_score : ℕ
  pub minimum_reversal_score : ℕ
  pub min_drop_from_avg : Decimal
  pub max_rebuy_per_cycle : ℕ
  pub recovery : RebuyConditionConfig
  pub reoversold : RebuyConditionConfig

pub record RiskReviewConfig : Type 0 where
  pub info_days : ℕ
  pub review_days : ℕ
  pub high_days : ℕ

-- `market_regime["soxl_sector_guard"]`; any other rule text is read as `any_below_ema60`
pub data SectorRule : Type 0 where
  any_below_ema60 all_below_ema60 : SectorRule

pub record SectorGuard : Type 0 where
  pub enabled : Bool
  pub blocked_stages : List ℕ
  pub benchmark_candidates : List String
  pub rule : SectorRule

-- `market_regime["first_entry_trend_guard"]`
pub data TrendRule : Type 0 where
  ema20_below_ema60 price_and_ema20_below_ema60 : TrendRule

pub record TrendGuard : Type 0 where
  pub enabled : Bool
  pub symbols : List String
  pub rule : TrendRule

pub record StrategyConfig : Type 0 where
  pub global : GlobalConfig
  pub position : PositionConfig
  pub exposure : ExposureConfig
  pub additional_entry : List (ℕ × StageRule)
  pub take_profit : TakeProfitConfig
  pub rebuy : RebuyConfig
  pub risk_review : RiskReviewConfig
  pub sector_guard : SectorGuard
  pub trend_guard : TrendGuard
