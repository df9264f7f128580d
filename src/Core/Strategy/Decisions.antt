-- ===== src/Core/Strategy/Decisions.antt =====
-- What an allowed decision of core/strategy.py says.
use jh_holdings.Prelude.{
  ℕ, ◌<◌, ◌≡◌, ◌↔◌, refl, Bool, true, false, not, ◌&&◌, List, [], ◌∷◌, ◌++◌, arith, leb,
  if◌then◌else◌, is_empty, when, ok, >>=-eq-ok,
}
use jh_holdings.Decimal.{Decimal, of_ℕ, leq, less, ◌≼◌, ◌≺◌}
use jh_holdings.Core.Enums.{PositionState}
use jh_holdings.Core.Models.{
  TradeDecision, Reason, soxl_sector_guard, first_entry_trend_guard, anchor_missing,
  stage_trigger_not_met, rebuy_disabled, rebuy_already_used, rebuy_recovery_not_armed,
  reoversold_not_met, rebuy_price_not_met, exposure_limit,
}
use jh_holdings.Core.Config.{StrategyConfig, StageRule}
use jh_holdings.Core.Eligibility.{gate_reasons}
use jh_holdings.Core.Strategy.Gates.{Passes, Passes-of_empty, empty_of_Passes}
use jh_holdings.Core.Strategy.{
  Inputs, rebuy_available, rebuy_trigger, rebuy_budget, entry_decision, additional_decision,
  score_to_exposure, entry_gate, additional_gate, rebuy_gate, evaluate_entry, evaluate_rebuy,
  calculate_stage_budget, soxl_sector_guard_blocks, first_entry_trend_guard_blocks,
  evaluate_reoversold, stage_trigger,
}

is_empty-append {ℓ} :
    {A : Type ℓ} (xs ys : List A) → is_empty (xs ++ ys) ≡ is_empty xs && is_empty ys
is_empty-append [] ys = refl
is_empty-append (x ∷ xs) ys = refl

is_empty-when : (b : Bool) (r : Reason) → is_empty (when b r) ≡ not b
is_empty-when true r = refl
is_empty-when false r = refl

-- The two trend guards of a first entry.
abbrev pub Unblocked : Inputs → StrategyConfig → Type 0
Unblocked i config =
    (soxl_sector_guard_blocks i.snapshot.symbol 1 i.sector_benchmarks config ≡ false)
    × (first_entry_trend_guard_blocks i.snapshot config ≡ false)

entry_decision-allowed :
    (i : Inputs) (config : StrategyConfig) (cap : Decimal) (a : Decimal × Decimal)
    → ((entry_decision i cap a config).allowed ≡ true)
      ↔ (Passes (entry_gate i a.1 config) config × Unblocked i config)
unfolding entry_decision
entry_decision-allowed i config cap (target, budget) = ground (
  arith,
  is_empty-append (gate_reasons (entry_gate i budget config) config) (
      when (soxl_sector_guard_blocks i.snapshot.symbol 1 i.sector_benchmarks config)
        soxl_sector_guard
      ++ when (first_entry_trend_guard_blocks i.snapshot config) first_entry_trend_guard),
  Passes-of_empty (entry_gate i budget config) config,
  empty_of_Passes (entry_gate i budget config) config,
)

-- A successful first evaluation is the decision at its own budget.
pub evaluate_entry-decision :
    (i : Inputs) (config : StrategyConfig) (d : TradeDecision)
    → evaluate_entry i config ≡ ok d
    → (cap : Decimal) × (a : Decimal × Decimal) × (d ≡ entry_decision i cap a config)
unfolding evaluate_entry
evaluate_entry-decision i config d e =
    let cap = score_to_exposure i.score.total config in
    let (a, _, q) = >>=-eq-ok (calculate_stage_budget cap 1 (of_ℕ 0) config) _ e in (cap, a, cc)

-- A first entry that is returned is allowed exactly when its gate passes at the planned budget
-- and neither trend guard blocks it.
pub evaluate_entry-allowed_iff :
    (i : Inputs) (config : StrategyConfig) (d : TradeDecision)
    → evaluate_entry i config ≡ ok d
    → (d.allowed ≡ true)
      ↔ (Passes (entry_gate i d.planned_budget config) config × Unblocked i config)
evaluate_entry-allowed_iff i config d e =
    let (cap, a, q) = evaluate_entry-decision i config d e in
    rw q (unfold entry_decision in entry_decision-allowed i config cap a)

-- The price rules of an additional entry: an anchor, and a close at or below its trigger.
abbrev pub Triggered : Inputs → StageRule → Type 0
Triggered i rule =
    (of_ℕ 0 ≺ i.position.anchor_price) × (i.snapshot.close ≼ stage_trigger i.position rule)

-- The decision on an additional stage is allowed exactly when its gate passes, there is an
-- anchor and the close is at or below the trigger of the stage, and the sector guard does not
-- block it.
pub additional_decision-allowed :
    (i : Inputs) (config : StrategyConfig) (stage : ℕ) (rule : StageRule) (holding : PositionState)
    (cap : Decimal) (a : Decimal × Decimal)
    → ((additional_decision i stage rule holding cap a config).allowed ≡ true) ↔ (
        Passes (additional_gate i holding rule a.1 config) config
        × Triggered i rule
        × (soxl_sector_guard_blocks i.snapshot.symbol stage i.sector_benchmarks config ≡ false))
unfolding additional_decision less
additional_decision-allowed i config stage rule holding cap (target, budget) = ground (
  arith,
  is_empty-append (gate_reasons (additional_gate i holding rule budget config) config) (
      (if leq i.position.anchor_price (of_ℕ 0)
        then when true anchor_missing
        else when (less (stage_trigger i.position rule) i.snapshot.close) stage_trigger_not_met)
      ++ when (soxl_sector_guard_blocks i.snapshot.symbol stage i.sector_benchmarks config)
          soxl_sector_guard),
  Passes-of_empty (additional_gate i holding rule budget config) config,
  empty_of_Passes (additional_gate i holding rule budget config) config,
)

-- What a rebuy needs beyond its gate.
pub record MayRebuy (i : Inputs) (config : StrategyConfig) : Type 0 where
  pub enabled : config.rebuy.enabled ≡ true
  pub unused : i.position.rebuy_count < config.rebuy.max_rebuy_per_cycle
  pub armed : i.position.rebuy_recovery_armed ≡ true
  pub reoversold : evaluate_reoversold i.snapshot config ≡ true
  pub cheap : i.snapshot.close ≼ rebuy_trigger i config
  pub funded : of_ℕ 0 ≺ rebuy_budget i config

-- A rebuy is allowed exactly when its gate passes, rebuys are enabled, fewer than the maximum
-- were made, the recovery is armed, the symbol is oversold again, the close is at or below the
-- rebuy trigger and the budget is positive.
pub evaluate_rebuy-allowed_iff :
    (i : Inputs) (config : StrategyConfig)
    → ((evaluate_rebuy i config).allowed ≡ true)
      ↔ (Passes (rebuy_gate i (rebuy_available i) config) config × MayRebuy i config)
unfolding evaluate_rebuy less
evaluate_rebuy-allowed_iff i config = ground (
  arith,
  is_empty-append (gate_reasons (rebuy_gate i (rebuy_available i) config) config) (
      when (not config.rebuy.enabled) rebuy_disabled
      ++ (when (leb config.rebuy.max_rebuy_per_cycle i.position.rebuy_count) rebuy_already_used
          ++ (when (not i.position.rebuy_recovery_armed) rebuy_recovery_not_armed
              ++ (when (not (evaluate_reoversold i.snapshot config)) reoversold_not_met
                  ++ (when (less (rebuy_trigger i config) i.snapshot.close) rebuy_price_not_met
                      ++ when (leq (rebuy_budget i config) (of_ℕ 0)) exposure_limit))))),
  Passes-of_empty (rebuy_gate i (rebuy_available i) config) config,
  empty_of_Passes (rebuy_gate i (rebuy_available i) config) config,
)
