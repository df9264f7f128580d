-- ===== src/Core/Strategy/Exposure.antt =====
-- core/strategy.py: the exposure of a score, the cap of a cycle and the budget of a stage.
use jh_holdings.Prelude.{
  ℕ, zero, suc, Option, none, some, leb, if◌then◌else◌, get_elem?, Result, ok, raise, ◌>>=◌,
}
use jh_holdings.Decimal.{Decimal, of_ℕ, ◌⊖◌, ◌⊗◌, leq, min, max, quantize}
use jh_holdings.Core.Config.{StrategyConfig}

pub data StrategyError : Type 0 where
  unsupported_stage unknown_holding_state : StrategyError

unfoldable pub score_to_exposure : ℕ → StrategyConfig → Decimal
score_to_exposure score config =
    let scaled = λ (share : Decimal). quantize 100 (config.global.capital_per_symbol ⊗ share) in
    if leb 92 score
    then scaled config.exposure.score_92_100
    else if leb 88 score
    then scaled config.exposure.score_88_91
    else if leb config.global.entry_score score
    then scaled config.exposure.score_82_87
    else of_ℕ 0

unfoldable pub update_cycle_exposure_cap : Decimal → ℕ → StrategyConfig → Decimal
update_cycle_exposure_cap previous_cap score config =
    let proposed = score_to_exposure score config in
    if leq previous_cap (of_ℕ 0)
    then proposed
    else if config.exposure.allow_cap_increase
    then min config.global.capital_per_symbol (max previous_cap proposed)
    else previous_cap

-- the target and the budget of a stage, from its cumulative weight
unfoldable pub stage_amounts : Decimal → Decimal → Decimal → Decimal × Decimal
stage_amounts cap weight staged =
    let target = quantize 100 (cap ⊗ weight) in
    (target, quantize 100 (max (of_ℕ 0) (target ⊖ staged)))

-- `cumulative_weights[target_stage - 1]`, if `1 <= target_stage <= len(cumulative_weights)`
abbrev pub stage_weight : StrategyConfig → ℕ → Option Decimal
stage_weight config zero = none
stage_weight config (suc i) = get_elem? config.position.cumulative_weights i

abbrev pub or_raise {ℓ} : {E : Type 0} {A : Type ℓ} → Option A → E → Result E A
or_raise none e = raise e
or_raise (some a) e = ok a

unfoldable pub calculate_stage_budget :
    Decimal → ℕ → Decimal → StrategyConfig → Result StrategyError (Decimal × Decimal)
unfolding stage_amounts
calculate_stage_budget cap target_stage staged config = do
  weight ← or_raise (stage_weight config target_stage) unsupported_stage
  ok (stage_amounts cap weight staged)
