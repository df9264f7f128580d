-- ===== src/Core/Allocation/Tests.antt =====
-- The allocation on sample sessions at the frozen policy.
use jh_holdings.Prelude.{◌≡◌, refl, none, some, [], ◌∷◌, true, false}
use jh_holdings.Decimal.{Decimal, of_ℕ, ratio, ◌⊕◌, leq, min, ◌≼◌, ◌≈◌}
use jh_holdings.Core.Allocation.{
  QqqRow, AllocationState, advance_state, brakes, semiconductor_wins, base_weights,
  apply_jdss_overlay, weight_of, qqq, Session, replay_from,
}
use jh_holdings.Core.Allocation.State.{strong, advance_state-one_way}
use jh_holdings.Core.Allocation.ReplayLaws.{Chain, replay_from-Chain}
use jh_holdings.Core.Allocation.Weights.{frozen, exposure, invested, weights_carry_leverage}

abbrev row_with : Decimal → QqqRow
row_with volatility = record {
  close = of_ℕ 400;
  sma_short = some (of_ℕ 390);
  sma_long = some (of_ℕ 350);
  ret_short = some (ratio 2 100);
  ret_medium = some (ratio 5 100);
  ret_long = some (ratio 9 100);
  volatility = some volatility;
  sma_long_slope = some (ratio 1 100);
}

abbrev strong_state : AllocationState
strong_state = record { month = 5; leverage = frozen.leverage_strong; semiconductor_active = true }

abbrev calm_session : Session
calm_session = record {
  month = 5;
  qqq_row = row_with (ratio 2 10);
  rs_return = some (ratio 12 100);
  active_tqqq = true;
  active_soxl = false;
}

abbrev wild_session : Session
wild_session = record calm_session {
  qqq_row = row_with (ratio 35 100);
  rs_return = some (ratio 3 100);
}

advance_state-one_way_example :
    let next =
      advance_state
        (some strong_state)
        strong_state.month
        (row_with (ratio 35 100))
        (some (ratio 3 100))
        frozen in
    (next.month ≡ strong_state.month)
    × (next.leverage ≼ strong_state.leverage)
    × (brakes (row_with (ratio 35 100)).volatility frozen ≡ true
        → next.leverage ≼ frozen.leverage_defensive)
    × (next.semiconductor_active ≡ true
        → (strong_state.semiconductor_active ≡ true)
          × (semiconductor_wins (row_with (ratio 35 100)) (some (ratio 3 100)) ≡ true))
advance_state-one_way_example =
    advance_state-one_way frozen strong_state (row_with (ratio 35 100)) (some (ratio 3 100))

replay_from-Chain_example :
    Chain frozen none (replay_from none (calm_session ∷ wild_session ∷ calm_session ∷ []) frozen)
replay_from-Chain_example =
    replay_from-Chain frozen (calm_session ∷ wild_session ∷ calm_session ∷ []) none tt

weights_carry_leverage_example :
    let w = base_weights strong_state frozen in
    let w' = apply_jdss_overlay w true false frozen in
    (exposure w ≈ strong_state.leverage)
    × (invested w ≈ min (of_ℕ 1) strong_state.leverage)
    × (invested w' ≈ invested w)
    × (of_ℕ 0 ≼ weight_of qqq w')
    × (exposure w' ≼ strong_state.leverage ⊕ ratio 1 10)
weights_carry_leverage_example = weights_carry_leverage strong_state true false (strong refl)

equity_positive : of_ℕ 0 ≼ of_ℕ 58_000
unfolding leq
equity_positive = refl
