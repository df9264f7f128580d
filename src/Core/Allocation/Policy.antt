-- ===== src/Core/Allocation/Policy.antt =====
-- `V322Policy` and the checks of its `validate`. Floats are exact fractions.
use jh_holdings.Prelude.{ℕ, String, List, ◌++◌, Bool, not, ◌&&◌, ◌||◌, ◌==◌, when, str_eq}
use jh_holdings.Decimal.{Decimal, of_ℕ, ratio, ◌⊖◌, less, same}

pub record V322Policy : Type 0 where
  pub initial_capital : Decimal
  pub hwm_reinvestment_fraction : Decimal
  pub sma_short : ℕ
  pub sma_long : ℕ
  pub slope_lookback : ℕ
  pub momentum_short : ℕ
  pub momentum_medium : ℕ
  pub momentum_long : ℕ
  pub volatility_window : ℕ
  pub volatility_brake : Decimal
  pub trend_votes_required : ℕ
  pub leverage_defensive : Decimal
  pub leverage_normal : Decimal
  pub leverage_trend : Decimal
  pub leverage_strong : Decimal
  pub rs_benchmark : String
  pub rs_lookback : ℕ
  pub rs_sleeve_fraction : Decimal
  pub jdss_overlay_weight : Decimal
  pub first_session_close : Bool

pub data PolicyError : Type 0 where
  capital_frozen reinvestment_frozen sma_frozen momentum_frozen brake_frozen : PolicyError
  votes_frozen leverage_frozen benchmark_frozen sleeve_frozen overlay_frozen : PolicyError
  reset_frozen live_must_be_off : PolicyError

-- `abs(a - b) > 1e-12`
unfoldable pub differs : Decimal → Decimal → Bool
differs a b = less (ratio 1 1_000_000_000_000) (a ⊖ b) || less (ratio 1 1_000_000_000_000) (b ⊖ a)

-- the errors that `validate` joins in one `ValueError`; none means that it returns
unfoldable pub policy_errors : V322Policy → Bool → List PolicyError
policy_errors p live_enabled =
    when (not (same p.initial_capital (of_ℕ 50_000))) capital_frozen
    ++ (when (not (same p.hwm_reinvestment_fraction (ratio 3 4))) reinvestment_frozen
        ++ (when (not (p.sma_short == 50 && (p.sma_long == 200 && p.slope_lookback == 21)))
              sma_frozen
            ++ (when
                  (not
                    (p.momentum_short == 21 && (p.momentum_medium == 63 && p.momentum_long == 126)))
                  momentum_frozen
                ++ (when
                      (not (p.volatility_window == 20) || differs p.volatility_brake (ratio 3 10))
                      brake_frozen
                    ++ (when (not (p.trend_votes_required == 3)) votes_frozen
                        ++ (when
                              (not (
                                same p.leverage_defensive (ratio 1 2)
                                && (same p.leverage_normal (of_ℕ 1)
                                    && (same p.leverage_trend (ratio 5 4)
                                        && same p.leverage_strong (ratio 3 2)))))
                              leverage_frozen
                            ++ (when
                                  (not (str_eq p.rs_benchmark "SOXX") || not (p.rs_lookback == 126))
                                  benchmark_frozen
                                ++ (when (differs p.rs_sleeve_fraction (ratio 1 2)) sleeve_frozen
                                    ++ (when (differs p.jdss_overlay_weight (ratio 1 20))
                                          overlay_frozen
                                        ++ (when (not p.first_session_close) reset_frozen
                                            ++ when live_enabled live_must_be_off))))))))))
