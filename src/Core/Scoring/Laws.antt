-- ===== src/Core/Scoring/Laws.antt =====
-- Bounds of a score, and the order of the grades.
use jh_holdings.Prelude.{ℕ, ◌+◌, ◌≤◌, ◌≡◌, Bool, true, arith}
use jh_holdings.Decimal.{Decimal}
use jh_holdings.Core.Enums.{MarketRegime, SignalGrade, grade_s, grade_a, grade_b, watch, no_trade}
use jh_holdings.Core.Models.{IndicatorSnapshot}
use jh_holdings.Core.Scoring.{
  ScoringConfig, Grades, calibrate, calculate_grade, raw_components, calibrated_components,
  score_result, calculate_score,
}

-- `NO_TRADE` < `WATCH` < `B` < `A` < `S`
abbrev pub rank : SignalGrade → ℕ
rank no_trade = 0
rank watch = 1
rank grade_b = 2
rank grade_a = 3
rank grade_s = 4

calibrate-le :
    (power : Decimal → Decimal → Decimal) (enabled : Bool) (exponent : Decimal) (maximum raw : ℕ)
    → enabled ≡ true
    → calibrate power enabled exponent maximum raw ≤ maximum
unfolding calibrate
calibrate-le power enabled exponent maximum raw on = ground arith

-- With the calibration on, whatever the power function, the total is exactly the sum of the five
-- calibrated components and at most 100, with the oversold part at most 40 and the reversal part
-- at most 20.
pub calculate_score-exact :
    (power : Decimal → Decimal → Decimal) (snapshot : IndicatorSnapshot) (regime : MarketRegime)
    (config : ScoringConfig)
    → config.calibrated ≡ true
    → let r = calculate_score power snapshot regime config in
      (r.total
        ≡ r.regime_score + r.oversold_score + r.reversal_score + r.volume_score + r.atr_score)
      × (r.total ≤ 100)
      × (r.oversold_score ≤ 40)
      × (r.reversal_score ≤ 20)
unfolding calculate_score score_result calibrated_components
calculate_score-exact power snapshot regime config on =
    let raw = raw_components snapshot regime config in
    let r = calibrate-le power config.calibrated config.exponents.regime 25 raw.regime on in
    let o = calibrate-le power config.calibrated config.exponents.oversold 40 raw.oversold on in
    let v = calibrate-le power config.calibrated config.exponents.reversal 20 raw.reversal on in
    let w = calibrate-le power config.calibrated config.exponents.volume 10 raw.volume on in
    let a = calibrate-le power config.calibrated config.exponents.atr 5 raw.atr on in
    (omega arith, omega arith, o, v)

pub calculate_grade_mono :
    (grades : Grades) (low high : ℕ)
    → low ≤ high
    → rank (calculate_grade low grades) ≤ rank (calculate_grade high grades)
unfolding calculate_grade
calculate_grade_mono grades low high h = ground arith
