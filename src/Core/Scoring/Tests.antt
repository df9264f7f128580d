-- ===== src/Core/Scoring/Tests.antt =====
-- A score at the settings of strategy.yaml.
use jh_holdings.Prelude.{◌+◌, ◌≤◌, ◌≡◌, refl, [], ◌∷◌, true}
use jh_holdings.Decimal.{Decimal, of_ℕ, ratio, minus_ratio}
use jh_holdings.Core.Enums.{green}
use jh_holdings.Core.Samples.{snapshot_at}
use jh_holdings.Core.Scoring.{ScoringConfig, calculate_score}
use jh_holdings.Core.Scoring.Laws.{calculate_score-exact}

abbrev points : ScoringConfig
points = record {
  green_score = 25;
  yellow_score = 15;
  red_score = 0;
  cci5_bands = (minus_ratio 200 1, 13) ∷ (minus_ratio 150 1, 10) ∷ (minus_ratio 100 1, 6) ∷ [];
  cci10_bands = (minus_ratio 200 1, 13) ∷ (minus_ratio 150 1, 10) ∷ (minus_ratio 100 1, 6) ∷ [];
  rsi5_bands = (of_ℕ 20, 7) ∷ (of_ℕ 25, 5) ∷ (of_ℕ 30, 3) ∷ [];
  rsi14_bands = (of_ℕ 35, 4) ∷ (of_ℕ 40, 2) ∷ [];
  deep_multiplier = ratio 98 100;
  deep_score = 3;
  touch_score = 2;
  close_position_threshold = ratio 1 2;
  points_per_condition = 5;
  volume_bands = (of_ℕ 1, 2) ∷ (ratio 12 10, 4) ∷ (ratio 15 10, 7) ∷ (of_ℕ 2, 10) ∷ [];
  atr_bands = record {
    low_1 = ratio 1 100;
    low_2 = ratio 2 100;
    high = ratio 10 100;
    below_1 = 0;
    below_2 = 3;
    within = 5;
    above = 2;
  };
  calibrated = true;
  exponents = record {
    regime = of_ℕ 1;
    oversold = ratio 45 100;
    reversal = ratio 55 100;
    volume = ratio 65 100;
    atr = ratio 90 100;
  };
  grades = record { s = 90; a = 82; b = 72; watch = 50 };
}

-- a power that leaves its base alone
abbrev linear : Decimal → Decimal → Decimal
linear x y = x

calculate_score-exact_example :
    let r = calculate_score linear (snapshot_at (of_ℕ 100)) green points in
    (r.total ≡ r.regime_score + r.oversold_score + r.reversal_score + r.volume_score + r.atr_score)
    × (r.total ≤ 100)
    × (r.oversold_score ≤ 40)
    × (r.reversal_score ≤ 20)
calculate_score-exact_example =
    calculate_score-exact linear (snapshot_at (of_ℕ 100)) green points refl
