-- ===== src/Core/Strategy/Numbers.antt =====
-- The numbers of the additional stages, for a position that has taken its first profit.
use jh_holdings.Prelude.{
  ℕ, zero, suc, ◌-◌, ◌≡◌, refl, List, [], ◌∷◌, Bool, false, ◌&&◌, leb, arith, all, if◌then◌else◌,
  ok, raise, sym, subst,
}
use jh_holdings.Core.Enums.{
  PositionState, partial_tp_1, empty, holding_1st, holding_2nd, holding_3rd, holding_4th, is_state,
  PositionState-discrete,
}
use jh_holdings.Core.Config.{StrategyConfig, StageRule}
use jh_holdings.Core.Strategy.{
  Inputs, unknown_holding_state, expected_holding_state, evaluate_rebuy, evaluate_stages,
  evaluate_strategy, insert_stage, sorted_stages,
}

-- one of the four holding states comes before the stage
abbrev pub is_known : ℕ → Bool
is_known stage = leb 2 stage && leb stage 5

abbrev pub all_known : StrategyConfig → Bool
all_known config = all (λ (e : ℕ × StageRule). is_known e.0) config.additional_entry

all-insert : (n : ℕ) (ns : List ℕ) → all is_known (insert_stage n ns) ≡ all is_known (n ∷ ns)
all-insert n [] = refl
all-insert n (m ∷ ms) = ground (arith, all-insert n ms)

all-sorted :
    (es : List (ℕ × StageRule))
    → all is_known (sorted_stages es) ≡ all (λ (e : ℕ × StageRule). is_known e.0) es
all-sorted [] = refl
all-sorted ((n, r) ∷ es) = ground (arith, all-insert n (sorted_stages es), all-sorted es)

module _ (i : Inputs) (config : StrategyConfig) (taken : i.position.state ≡ partial_tp_1) where
  tested :
      (state : PositionState) {b : Bool}
      → is_state partial_tp_1 state ≡ b
      → is_state i.position.state state ≡ b
  tested state {b} h = subst (λ x. is_state x state ≡ b) (sym taken) h

  stages-outcome :
      (stages : List ℕ)
      → evaluate_stages stages i config ≡ (
          if all is_known stages then ok (evaluate_rebuy i config) else raise unknown_holding_state)
  unfolding evaluate_stages expected_holding_state PositionState-discrete
  stages-outcome [] = rw (tested partial_tp_1 refl) refl
  stages-outcome (zero ∷ stages) = refl
  stages-outcome (suc zero ∷ stages) = refl
  stages-outcome (suc (suc zero) ∷ stages) = rw (tested holding_1st refl) (stages-outcome stages)
  stages-outcome (suc (suc (suc zero)) ∷ stages) =
      rw (tested holding_2nd refl) (stages-outcome stages)
  stages-outcome (suc (suc (suc (suc zero))) ∷ stages) =
      rw (tested holding_3rd refl) (stages-outcome stages)
  stages-outcome (suc (suc (suc (suc (suc zero)))) ∷ stages) =
      rw (tested holding_4th refl) (stages-outcome stages)
  stages-outcome (suc (suc (suc (suc (suc (suc n))))) ∷ stages) =
      let before : suc (suc (suc (suc (suc (suc n))))) - 1 ≡ suc (suc (suc (suc (suc n)))) =
        omega arith in
      let unknown : is_known (suc (suc (suc (suc (suc (suc n)))))) ≡ false = ground arith in
      rw (before, unknown) refl

  -- For a position that has taken its first profit `evaluate_strategy` gives the decision on a
  -- rebuy where every additional stage is numbered from 2 to 5, and raises the unknown holding
  -- state where one is not.
  pub evaluate_strategy_by_numbers :
      evaluate_strategy i config
      ≡ (if all_known config then ok (evaluate_rebuy i config) else raise unknown_holding_state)
  unfolding evaluate_strategy PositionState-discrete
  evaluate_strategy_by_numbers =
      rw (tested empty refl, ← all-sorted config.additional_entry)
        (stages-outcome (sorted_stages config.additional_entry))
