-- ===== src/Core/Samples.antt =====
-- Inputs at the settings of strategy.yaml, which the tests of the modules share.
use jh_holdings.Prelude.{some, [], ◌∷◌, true, false}
use jh_holdings.Decimal.{Decimal, of_ℕ, ratio, minus_ratio}
use jh_holdings.Core.Enums.{PositionState, empty, holding_1st, green, grade_a, none_level}
use jh_holdings.Core.Models.{IndicatorSnapshot, ScoreResult, PositionSnapshot}
use jh_holdings.Core.Config.{
  StrategyConfig, StageRule, any_below_ema60, price_and_ema20_below_ema60,
}
use jh_holdings.Core.Strategy.{Inputs}

abbrev pub fee : Decimal
fee = ratio 1 1000

abbrev pub stage_2 : StageRule
stage_2 = record { min_drop_from_anchor = ratio 2 100; min_score = 55 }

abbrev pub stage_3 : StageRule
stage_3 = record { min_drop_from_anchor = ratio 5 100; min_score = 55 }

abbrev pub settings : StrategyConfig
settings = record {
  global = record {
    capital_per_symbol = of_ℕ 20_000;
    buy_fee = fee;
    sell_fee = fee;
    approval_required = true;
    stop_loss_enabled = false;
    entry_score = 55;
    minimum_reversal_score = 5;
    entry_max_chase_pct = ratio 5 100;
    buy_limit_buffer = ratio 5 1000;
  };
  position = record {
    stage_weights = ratio 4 10 ∷ ratio 3 10 ∷ ratio 2 10 ∷ [];
    cumulative_weights = ratio 4 10 ∷ ratio 7 10 ∷ ratio 9 10 ∷ [];
  };
  exposure = record {
    score_82_87 = of_ℕ 1;
    score_88_91 = of_ℕ 1;
    score_92_100 = of_ℕ 1;
    allow_cap_increase = true;
    allow_cap_decrease_during_cycle = false;
  };
  additional_entry = (2, stage_2) ∷ (3, stage_3) ∷ [];
  take_profit = record {
    tp1_base = ratio 4 100;
    tp1_fraction = ratio 3 10;
    tp2_base = ratio 1 10;
    use_atr = false;
    tp1_atr_multiplier = of_ℕ 0;
    tp2_atr_multiplier = of_ℕ 0;
    remainder_exit = record {
      enabled = false;
      wait_trading_days = 20;
      target_from_avg = ratio 2 100;
    };
  };
  rebuy = record {
    enabled = false;
    minimum_score = 82;
    minimum_reversal_score = 5;
    min_drop_from_avg = ratio 2 100;
    max_rebuy_per_cycle = 1;
    recovery = record {
      mode_any = true;
      cci5 = minus_ratio 100 1;
      rsi5 = of_ℕ 35;
      close_test = true;
    };
    reoversold = record {
      mode_any = true;
      cci5 = minus_ratio 150 1;
      rsi5 = of_ℕ 25;
      close_test = true;
    };
  };
  risk_review = record { info_days = 10; review_days = 20; high_days = 40 };
  sector_guard = record {
    enabled = true;
    blocked_stages = 1 ∷ 3 ∷ [];
    benchmark_candidates = "SOXX" ∷ "SMH" ∷ [];
    rule = any_below_ema60;
  };
  trend_guard = record { enabled = false; symbols = []; rule = price_and_ema20_below_ema60 };
}

abbrev pub snapshot_at : Decimal → IndicatorSnapshot
snapshot_at close = record {
  symbol = "TQQQ";
  trade_date = 739_000;
  open_price = close;
  high = close;
  low = close;
  close = close;
  previous_close = close;
  volume = 1_000;
  cci5 = minus_ratio 160 1;
  cci10 = minus_ratio 120 1;
  rsi5 = of_ℕ 24;
  rsi14 = of_ℕ 38;
  ema5 = close;
  ema20 = close;
  ema60 = close;
  bb_lower = close;
  atr14 = of_ℕ 2;
  atr_pct = ratio 2 100;
  volume_ratio = of_ℕ 1;
  close_position = ratio 1 2;
}

abbrev pub good_score : ScoreResult
good_score = record {
  total = 84;
  grade = grade_a;
  regime = green;
  regime_score = 25;
  oversold_score = 25;
  reversal_score = 14;
  volume_score = 10;
  atr_score = 10;
  raw_regime_score = 25;
  raw_oversold_score = 25;
  raw_reversal_score = 10;
  raw_volume_score = 10;
  raw_atr_score = 10;
}

abbrev pub position_in : PositionState → Decimal → PositionSnapshot
position_in state staged = record {
  symbol = "TQQQ";
  state = state;
  cycle_id = some "TQQQ-1";
  quantity = 80;
  average_price = of_ℕ 100;
  current_cost_basis = staged;
  cycle_exposure_cap = of_ℕ 20_000;
  staged_entry_capital = staged;
  cash_remaining = of_ℕ 12_000;
  entry_count = 1;
  anchor_price = of_ℕ 100;
  last_entry_price = of_ℕ 100;
  last_entry_date = some 738_990;
  rebuy_count = 0;
  rebuy_recovery_armed = false;
  tp1_filled_qty = 0;
  risk_review_level = none_level;
  version = 1;
}

-- a first entry, and an additional entry two stages of which are open
abbrev pub first_inputs : Inputs
first_inputs = record {
  snapshot = snapshot_at (of_ℕ 100);
  score = good_score;
  position = position_in empty (of_ℕ 0);
  data_ok = true;
  system_ok = true;
  sector_benchmarks = [];
}

abbrev pub second_inputs : Inputs
second_inputs = record {
  snapshot = snapshot_at (of_ℕ 97);
  score = good_score;
  position = position_in holding_1st (of_ℕ 8_000);
  data_ok = true;
  system_ok = true;
  sector_benchmarks = [];
}
