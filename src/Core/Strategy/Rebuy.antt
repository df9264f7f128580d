-- ===== src/Core/Strategy/Rebuy.antt =====
-- core/strategy.py: the rebuy and its conditions.
use jh_holdings.Prelude.{
  none, some, [], ◌∷◌, ◌++◌, Bool, false, not, ◌&&◌, ◌||◌, leb, if◌then◌else◌, when,
}
use jh_holdings.Decimal.{Decimal, of_ℕ, ◌⊕◌, ◌⊖◌, ◌⊗◌, leq, less, min, max, quantize}
use jh_holdings.Core.Enums.{partial_tp_1, rebuy_candidate}
use jh_holdings.Core.Models.{
  IndicatorSnapshot, TradeDecision, rebuy_disabled, rebuy_already_used, rebuy_recovery_not_armed,
  reoversold_not_met, rebuy_price_not_met, exposure_limit, rebuy_pass,
}
use jh_holdings.Core.Config.{StrategyConfig}
use jh_holdings.Core.Eligibility.{Gate, gate_reasons}
use jh_holdings.Core.Strategy.Entry.{Inputs, decide_on}

-- `any(conditions)` or `all(conditions)`, by the mode
abbrev combine : Bool → Bool → Bool → Bool → Bool
combine mode_any a b c = if mode_any then a || (b || c) else a && (b && c)

unfoldable pub evaluate_rebuy_recovery : IndicatorSnapshot → StrategyConfig → Bool
evaluate_rebuy_recovery s config =
    let values = config.rebuy.recovery in
    combine values.mode_any (less values.cci5 s.cci5) (leq values.rsi5 s.rsi5)
      (if values.close_test then less s.ema5 s.close else false)

unfoldable pub evaluate_reoversold : IndicatorSnapshot → StrategyConfig → Bool
evaluate_reoversold s config =
    let values = config.rebuy.reoversold in
    combine values.mode_any (leq s.cci5 values.cci5) (leq s.rsi5 values.rsi5)
      (if values.close_test then leq s.close s.bb_lower else false)

unfoldable pub rebuy_gate : Inputs → Decimal → StrategyConfig → Gate
rebuy_gate i available config = record {
  data_ok = i.data_ok;
  system_ok = i.system_ok;
  state = i.position.state;
  allowed_states = partial_tp_1 ∷ [];
  regime = i.score.regime;
  score = i.score;
  required_score = config.rebuy.minimum_score;
  minimum_reversal_score = config.rebuy.minimum_reversal_score;
  available_capital = available;
}

-- `available_capital`, `trigger` and `budget` of `evaluate_rebuy`
unfoldable pub rebuy_available : Inputs → Decimal
rebuy_available i = max (of_ℕ 0) (i.position.cycle_exposure_cap ⊖ i.position.current_cost_basis)

unfoldable pub rebuy_trigger : Inputs → StrategyConfig → Decimal
rebuy_trigger i config = i.position.average_price ⊗ (of_ℕ 1 ⊖ config.rebuy.min_drop_from_avg)

unfoldable pub rebuy_budget : Inputs → StrategyConfig → Decimal
rebuy_budget i config =
    let requested =
      of_ℕ i.position.tp1_filled_qty ⊗ i.snapshot.close ⊗ (of_ℕ 1 ⊕ config.global.buy_fee) in
    quantize 100 (min (rebuy_available i) requested)

unfoldable pub evaluate_rebuy : Inputs → StrategyConfig → TradeDecision
evaluate_rebuy i config =
    let position = i.position in
    let available = rebuy_available i in
    let trigger = rebuy_trigger i config in
    let budget = rebuy_budget i config in
    let reasons =
      gate_reasons (rebuy_gate i available config) config
      ++ (when (not config.rebuy.enabled) rebuy_disabled
          ++ (when (leb config.rebuy.max_rebuy_per_cycle position.rebuy_count) rebuy_already_used
              ++ (when (not position.rebuy_recovery_armed) rebuy_recovery_not_armed
                  ++ (when (not (evaluate_reoversold i.snapshot config)) reoversold_not_met
                      ++ (when (less trigger i.snapshot.close) rebuy_price_not_met
                          ++ when (leq budget (of_ℕ 0)) exposure_limit))))) in
    decide_on rebuy_candidate reasons rebuy_pass none position.cycle_exposure_cap
      position.cycle_exposure_cap budget (some (quantize 10000 trigger))
