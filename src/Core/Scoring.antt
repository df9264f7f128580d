-- ===== src/Core/Scoring.antt =====
-- core/scoring.py: the score of a signal. Scores are counts of points; the indicators and the
-- thresholds, floats in the source, are `Decimal`s, and the power of the calibration, a float
-- operation, is an argument.
pub mod Laws
mod Tests
use jh_holdings.Prelude.{
  ℕ, ◌+◌, ◌*◌, Option, none, some, List, [], ◌∷◌, Bool, true, false, not, leb, ltb, ◌==◌,
  if◌then◌else◌,
}
use Prim.Native.Nat.{min as least}
use jh_holdings.Decimal.{Decimal, of_ℕ, ratio, ◌⊕◌, ◌⊗◌, leq, less, floor}
use jh_holdings.Core.Enums.{
  MarketRegime, SignalGrade, green, yellow, red, grade_s, grade_a, grade_b, watch, no_trade,
}
use jh_holdings.Core.Models.{IndicatorSnapshot, ScoreResult}

abbrev pub Bands : Type 0
Bands = List (Decimal × ℕ)

pub record Grades : Type 0 where
  pub s : ℕ
  pub a : ℕ
  pub b : ℕ
  pub watch : ℕ

pub record AtrBands : Type 0 where
  pub low_1 : Decimal
  pub low_2 : Decimal
  pub high : Decimal
  pub below_1 : ℕ
  pub below_2 : ℕ
  pub within : ℕ
  pub above : ℕ

pub record Exponents : Type 0 where
  pub regime : Decimal
  pub oversold : Decimal
  pub reversal : Decimal
  pub volume : Decimal
  pub atr : Decimal

-- `config.scoring` and the scores of `config.market_regime`
pub record ScoringConfig : Type 0 where
  pub green_score : ℕ
  pub yellow_score : ℕ
  pub red_score : ℕ
  pub cci5_bands : Bands
  pub cci10_bands : Bands
  pub rsi5_bands : Bands
  pub rsi14_bands : Bands
  pub deep_multiplier : Decimal
  pub deep_score : ℕ
  pub touch_score : ℕ
  pub close_position_threshold : Decimal
  pub points_per_condition : ℕ
  pub volume_bands : Bands
  pub atr_bands : AtrBands
  pub calibrated : Bool
  pub exponents : Exponents
  pub grades : Grades

-- `_lte_band_score`: the first band that the value is at most
unfoldable pub lte_band_score : Decimal → Bands → ℕ
lte_band_score value [] = 0
lte_band_score value ((threshold, score) ∷ bands) =
    let later = lte_band_score value bands in if leq value threshold then score else later

-- `_gte_band_score`: the last band that the value is at least
unfoldable pub gte_from : ℕ → Decimal → Bands → ℕ
gte_from score value [] = score
gte_from score value ((threshold, candidate) ∷ bands) =
    gte_from (if leq threshold value then candidate else score) value bands

abbrev pub gte_band_score : Decimal → Bands → ℕ
gte_band_score value bands = gte_from 0 value bands

unfoldable pub calculate_grade : ℕ → Grades → SignalGrade
calculate_grade total grades =
    if leb grades.s total
    then grade_s
    else if leb grades.a total
    then grade_a
    else if leb grades.b total
    then grade_b
    else if leb grades.watch total
    then watch
    else no_trade

-- `_calibrate_component`; `power x y` is `x ** y`
unfoldable pub calibrate : (Decimal → Decimal → Decimal) → Bool → Decimal → (maximum raw : ℕ) → ℕ
calibrate power enabled exponent maximum raw =
    if not enabled
    then raw
    else if raw == 0
    then 0
    else if leb maximum raw
    then maximum
    else least maximum (floor (of_ℕ maximum ⊗ power (ratio raw maximum) exponent ⊕ ratio 1 2))

unfoldable pub regime_points : MarketRegime → ScoringConfig → ℕ
regime_points green config = config.green_score
regime_points yellow config = config.yellow_score
regime_points red config = config.red_score

unfoldable pub bollinger_points : IndicatorSnapshot → ScoringConfig → ℕ
bollinger_points snapshot config =
    if leq snapshot.close (snapshot.bb_lower ⊗ config.deep_multiplier)
    then config.deep_score
    else if leq snapshot.close snapshot.bb_lower
    then config.touch_score
    else 0

unfoldable pub oversold_points : IndicatorSnapshot → ScoringConfig → ℕ
oversold_points snapshot config = least 40 (
    lte_band_score snapshot.cci5 config.cci5_bands
    + lte_band_score snapshot.cci10 config.cci10_bands
    + lte_band_score snapshot.rsi5 config.rsi5_bands
    + lte_band_score snapshot.rsi14 config.rsi14_bands
    + bollinger_points snapshot config)

abbrev one_if : Bool → ℕ
one_if true = 1
one_if false = 0

unfoldable pub reversal_points : IndicatorSnapshot → ScoringConfig → ℕ
reversal_points snapshot config =
    (one_if (less snapshot.open_price snapshot.close)
      + one_if (less snapshot.previous_close snapshot.close)
      + one_if (less snapshot.ema5 snapshot.close)
      + one_if (leq config.close_position_threshold snapshot.close_position))
    * config.points_per_condition

unfoldable pub atr_points : Decimal → AtrBands → ℕ
atr_points atr_pct bands =
    if less atr_pct bands.low_1
    then bands.below_1
    else if less atr_pct bands.low_2
    then bands.below_2
    else if leq atr_pct bands.high
    then bands.within
    else bands.above

-- the five components
pub record Components : Type 0 where
  pub regime : ℕ
  pub oversold : ℕ
  pub reversal : ℕ
  pub volume : ℕ
  pub atr : ℕ

unfoldable pub raw_components : IndicatorSnapshot → MarketRegime → ScoringConfig → Components
raw_components snapshot regime config = record {
  regime = regime_points regime config;
  oversold = oversold_points snapshot config;
  reversal = reversal_points snapshot config;
  volume = gte_band_score snapshot.volume_ratio config.volume_bands;
  atr = atr_points snapshot.atr_pct config.atr_bands;
}

-- the components with the maxima of `_COMPONENT_MAXIMA`
unfoldable pub calibrated_components :
    (Decimal → Decimal → Decimal) → ScoringConfig → Components → Components
calibrated_components power config raw = record {
  regime = calibrate power config.calibrated config.exponents.regime 25 raw.regime;
  oversold = calibrate power config.calibrated config.exponents.oversold 40 raw.oversold;
  reversal = calibrate power config.calibrated config.exponents.reversal 20 raw.reversal;
  volume = calibrate power config.calibrated config.exponents.volume 10 raw.volume;
  atr = calibrate power config.calibrated config.exponents.atr 5 raw.atr;
}

abbrev pub sum_of : Components → ℕ
sum_of c = c.regime + c.oversold + c.reversal + c.volume + c.atr

unfoldable pub score_result : ScoringConfig → MarketRegime → Components → Components → ScoreResult
score_result config regime raw c =
    let total = least 100 (sum_of c) in
    record {
      total = total;
      grade = calculate_grade total config.grades;
      regime = regime;
      regime_score = c.regime;
      oversold_score = c.oversold;
      reversal_score = c.reversal;
      volume_score = c.volume;
      atr_score = c.atr;
      raw_regime_score = raw.regime;
      raw_oversold_score = raw.oversold;
      raw_reversal_score = raw.reversal;
      raw_volume_score = raw.volume;
      raw_atr_score = raw.atr;
    }

unfoldable pub calculate_score :
    (Decimal → Decimal → Decimal) → IndicatorSnapshot → MarketRegime → ScoringConfig → ScoreResult
calculate_score power snapshot regime config =
    let raw = raw_components snapshot regime config in
    score_result config regime raw (calibrated_components power config raw)
