-- ===== src/Core/Regime.antt =====
-- core/regime.py and core/risk.py: the market's regime, and the review of a long holding.
use jh_holdings.Prelude.{
  ℕ, ◌≤◌, Bool, not, ◌&&◌, leb, ◌==◌, arith, if◌then◌else◌, Result, ok, ◌>>◌, raise_if,
}
use jh_holdings.Decimal.{less}
use jh_holdings.Core.Enums.{
  MarketRegime, green, yellow, red, RiskReviewLevel, none_level, info, review_level, high,
}
use jh_holdings.Core.Models.{IndicatorSnapshot}
use jh_holdings.Core.Config.{RiskReviewConfig}

pub data RegimeError : Type 0 where
  dates_differ : RegimeError

abbrev pub all_green : IndicatorSnapshot → IndicatorSnapshot → Bool
all_green spy qqq =
    less spy.ema60 spy.close
    && (less qqq.ema60 qqq.close && (less spy.ema60 spy.ema20 && less qqq.ema60 qqq.ema20))

unfoldable pub regime_of : IndicatorSnapshot → IndicatorSnapshot → MarketRegime
regime_of spy qqq =
    if all_green spy qqq
    then green
    else if less spy.close spy.ema60 && less qqq.close qqq.ema60
    then red
    else yellow

unfoldable pub evaluate_regime :
    IndicatorSnapshot → IndicatorSnapshot → Result RegimeError MarketRegime
evaluate_regime spy qqq = do
  raise_if (not (spy.trade_date == qqq.trade_date)) dates_differ
  ok (regime_of spy qqq)

unfoldable pub evaluate_risk_review : ℕ → RiskReviewConfig → RiskReviewLevel
evaluate_risk_review holding_days config =
    if leb config.high_days holding_days
    then high
    else if leb config.review_days holding_days
    then review_level
    else if leb config.info_days holding_days
    then info
    else none_level

abbrev pub urgency : RiskReviewLevel → ℕ
urgency none_level = 0
urgency info = 1
urgency review_level = 2
urgency high = 3

-- A review does not become less urgent as the days go by.
pub evaluate_risk_review_mono :
    (config : RiskReviewConfig) (m n : ℕ)
    → m ≤ n
    → urgency (evaluate_risk_review m config) ≤ urgency (evaluate_risk_review n config)
unfolding evaluate_risk_review
evaluate_risk_review_mono config m n h = ground arith
