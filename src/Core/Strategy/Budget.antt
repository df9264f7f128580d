-- ===== src/Core/Strategy/Budget.antt =====
-- Bounds on the exposure cap and on the planned budget of a stage.
use jh_holdings.Prelude.{ℕ, ◌≡◌, inl, inr, arith, ok, Bool-cases, >>=-eq-ok, ok-injective}
use jh_holdings.Decimal.{Decimal, of_ℕ, ◌⊕◌, ◌⊖◌, less, ◌≼◌, ◌≺◌, max, quantize}
use jh_holdings.Decimal.Laws.{
  ≼_refl, ≼_trans, ≼_of_parts, ≼_parts, ⊕_mono, ≼-⊖_iff, ⊕_assoc, max-≽_left, ≼-min, min-≼_left,
}
use jh_holdings.Decimal.Quantize.{quantize-≼, half_unit}
use jh_holdings.Core.Config.{StrategyConfig}
use jh_holdings.Core.Strategy.{
  score_to_exposure, update_cycle_exposure_cap, calculate_stage_budget, stage_amounts, stage_weight,
  or_raise,
}

-- For a positive cap within the capital of the symbol, the update never lowers the cap and never
-- lifts it above that capital.
pub update_cycle_exposure_cap-bounds :
    (previous : Decimal) (score : ℕ) (config : StrategyConfig)
    → of_ℕ 0 ≺ previous
    → previous ≼ config.global.capital_per_symbol
    → (previous ≼ update_cycle_exposure_cap previous score config)
      × (update_cycle_exposure_cap previous score config ≼ config.global.capital_per_symbol)
unfolding update_cycle_exposure_cap less
update_cycle_exposure_cap-bounds previous score config p q =
    let capital = config.global.capital_per_symbol in
    let proposed = score_to_exposure score config in
    ground (
      arith,
      ≼_refl previous,
      ≼-min capital (max previous proposed) previous q (max-≽_left previous proposed),
      min-≼_left capital (max previous proposed),
    )

sub_back : (a b : Decimal) → b ≼ a → b ⊕ (a ⊖ b) ≼ a
sub_back a b h = ≼-⊖_iff a b (a ⊖ b) (≼_refl (a ⊖ b))

zero_⊕ : (a b : Decimal) → a ≼ b → a ⊕ of_ℕ 0 ≼ b
unfolding ◌⊕◌
zero_⊕ a b h = ≼_of_parts (a ⊕ of_ℕ 0) b (omega (arith, ≼_parts a b h))

-- Adding what is missing up to the target does not pass the target.
fill_up :
    (staged target : Decimal) → staged ≼ target → staged ⊕ max (of_ℕ 0) (target ⊖ staged) ≼ target
unfolding max
fill_up staged target h = elim (Bool-cases (less (of_ℕ 0) (target ⊖ staged))) [
  | inl e ↦ rw e (sub_back target staged h)
  | inr e ↦ rw e (zero_⊕ staged target h)
]

fill_up_rounded :
    (staged target : Decimal)
    → staged ≼ target
    → staged ⊕ quantize 100 (max (of_ℕ 0) (target ⊖ staged)) ≼ target ⊕ half_unit 99
fill_up_rounded staged target h =
    let gap = max (of_ℕ 0) (target ⊖ staged) in
    ≼_trans (staged ⊕ quantize 100 gap) (staged ⊕ (gap ⊕ half_unit 99)) (target ⊕ half_unit 99)
      (⊕_mono staged staged (quantize 100 gap) (gap ⊕ half_unit 99) (≼_refl staged)
        (quantize-≼ 99 gap (max-≽_left (of_ℕ 0) (target ⊖ staged))))
      (rw (⊕_assoc staged gap (half_unit 99)) (
        ⊕_mono (staged ⊕ gap) target (half_unit 99) (half_unit 99) (fill_up staged target h)
          (≼_refl (half_unit 99))))

amounts_budget :
    (cap weight staged target budget : Decimal)
    → stage_amounts cap weight staged ≡ (target, budget)
    → budget ≡ quantize 100 (max (of_ℕ 0) (target ⊖ staged))
unfolding stage_amounts
amounts_budget cap weight staged target budget e = cc

-- If what is already staged is within the target of the stage, then it and the budget that the
-- stage adds come to at most the target and half a cent of rounding.
pub staged-budget-≼ :
    (cap staged : Decimal) (stage : ℕ) (config : StrategyConfig) (target budget : Decimal)
    → calculate_stage_budget cap stage staged config ≡ ok (target, budget)
    → staged ≼ target
    → staged ⊕ budget ≼ target ⊕ half_unit 99
unfolding calculate_stage_budget
staged-budget-≼ cap staged stage config target budget e h =
    let (w, _, r) = >>=-eq-ok (or_raise (stage_weight config stage) _) _ e in
    rw (amounts_budget cap w staged target budget (ok-injective r))
      (fill_up_rounded staged target h)
