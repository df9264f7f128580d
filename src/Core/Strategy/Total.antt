-- ===== src/Core/Strategy/Total.antt =====
-- `evaluate_strategy` under rules on the numbers of the additional stages.
use jh_holdings.Prelude.{
  ℕ, zero, suc, ◌-◌, ◌≤◌, ◌<◌, ◌≡◌, refl, inl, inr, List, [], ◌∷◌, Option, some, arith, leb, ◌==◌,
  ok, length, get_elem?, Bool-cases, All, All-map,
}
use jh_holdings.Decimal.{of_ℕ}
use jh_holdings.Core.Enums.{
  holding_1st, holding_2nd, holding_3rd, holding_4th, empty, partial_tp_1, is_state,
}
use jh_holdings.Core.Models.{TradeDecision}
use jh_holdings.Core.Config.{StrategyConfig, StageRule}
use jh_holdings.Core.Strategy.{
  Inputs, entry_decision, additional_decision, evaluate_entry, evaluate_rebuy,
  evaluate_additional_entry, evaluate_stages, evaluate_strategy, expected_holding_state,
  calculate_stage_budget, not_eligible, stage_rule, sorted_stages, insert_stage, stage_weight,
  stage_amounts, score_to_exposure, update_cycle_exposure_cap,
}

-- `o` holds a value.
abbrev Holds {ℓ} : {A : Type ℓ} → Option A → Type ℓ
Holds {A} o = (a : A) × (o ≡ some a)

-- There is a first stage; every additional stage is numbered from 2 to 5, so that one of the four
-- holding states comes before it, and has a cumulative weight. The bound 5 is a condition of its own:
-- `validate_config` sets none on the number of stages.
pub record HasStages (config : StrategyConfig) : Type 0 where
  pub first : 1 ≤ length config.position.cumulative_weights
  pub additional :
      All
        (λ (e : ℕ × StageRule).
          (2 ≤ e.0) × (e.0 ≤ 5) × (e.0 ≤ length config.position.cumulative_weights))
        config.additional_entry

get_elem?-Holds {ℓ} : {A : Type ℓ} (xs : List A) (i : ℕ) → i < length xs → Holds (get_elem? xs i)
get_elem?-Holds [] i h = elim h [ ]
get_elem?-Holds (x ∷ xs) zero h = (x, refl)
get_elem?-Holds (x ∷ xs) (suc i) h = get_elem?-Holds xs i (omega arith)

weight-Holds :
    (config : StrategyConfig) (s : ℕ)
    → 1 ≤ s
    → s ≤ length config.position.cumulative_weights
    → Holds (stage_weight config s)
weight-Holds config zero h k = elim h [ ]
weight-Holds config (suc s) h k = get_elem?-Holds config.position.cumulative_weights s k

holding-Holds : (s : ℕ) → 2 ≤ s → s ≤ 5 → Holds (expected_holding_state (s - 1))
unfolding expected_holding_state
holding-Holds (suc (suc zero)) h k = (holding_1st, refl)
holding-Holds (suc (suc (suc zero))) h k = (holding_2nd, refl)
holding-Holds (suc (suc (suc (suc zero)))) h k = (holding_3rd, refl)
holding-Holds (suc (suc (suc (suc (suc zero))))) h k = (holding_4th, refl)
holding-Holds s h k = absurd (omega arith)

rule-Holds_cons :
    (key s : ℕ) (rule : StageRule) (rest : List (ℕ × StageRule))
    → Holds (stage_rule s rest)
    → Holds (stage_rule s ((key, rule) ∷ rest))
rule-Holds_cons key s rule rest (r, e) = elim (Bool-cases (key == s)) [
  | inl h ↦ (rule, rw h)
  | inr h ↦ (r, rw h e)
]

-- What one stage of the loop needs.
abbrev IsReady : StrategyConfig → ℕ → Type 0
IsReady config s =
    Holds (stage_rule s config.additional_entry)
    × Holds (stage_weight config s)
    × Holds (expected_holding_state (s - 1))

insert-All {ℓ} : (P : ℕ → Type ℓ) (n : ℕ) (ms : List ℕ) → P n → All P ms → All P (insert_stage n ms)
insert-All P n [] p h = (p, tt)
insert-All P n (m ∷ ms) p h = elim (Bool-cases (leb n m)) [
  | inl e ↦ rw e (p, h)
  | inr e ↦ rw e (h.0, insert-All P n ms p h.1)
]

sorted-All {ℓ} :
    (P : ℕ → Type ℓ) (l : List (ℕ × StageRule)) → All (λ e. P e.0) l → All P (sorted_stages l)
sorted-All P [] h = tt
sorted-All P ((s, rule) ∷ rest) h = insert-All P s (sorted_stages rest) h.0 (sorted-All P rest h.1)

keys-Holds : (l : List (ℕ × StageRule)) → All (λ e. Holds (stage_rule e.0 l)) l
keys-Holds [] = tt
keys-Holds ((s, rule) ∷ rest) =
    (rule-self s rule rest, All-map rest (λ e. rule-Holds_cons s e.0 rule rest) (keys-Holds rest))
  where
    rule-self :
        (s : ℕ) (rule : StageRule) (rest : List (ℕ × StageRule))
        → Holds (stage_rule s ((s, rule) ∷ rest))
    rule-self s rule rest = (rule, ground arith)

All-zip {ℓ κ μ} :
    {A : Type ℓ} (P : A → Type κ) (Q : A → Type μ) (xs : List A)
    → All P xs
    → All Q xs
    → All (λ x. P x × Q x) xs
All-zip P Q [] h k = tt
All-zip P Q (x ∷ xs) h k = ((h.0, k.0), All-zip P Q xs h.1 k.1)

stages-IsReady :
    (config : StrategyConfig)
    → HasStages config
    → All (IsReady config) (sorted_stages config.additional_entry)
stages-IsReady config v = sorted-All (IsReady config) config.additional_entry (
    All-map config.additional_entry
      (λ e p. (p.0, weight-Holds config e.0 (omega arith) p.1.2, holding-Holds e.0 p.1.0 p.1.1))
      (All-zip _ _ config.additional_entry (keys-Holds config.additional_entry) v.additional))

module _ (i : Inputs) (config : StrategyConfig) where
  evaluate_entry-returns : HasStages config → (d : TradeDecision) × (evaluate_entry i config ≡ ok d)
  unfolding evaluate_entry calculate_stage_budget
  evaluate_entry-returns v =
      let (w, found) = weight-Holds config 1 (omega arith) v.first in
      (
        entry_decision i (score_to_exposure i.score.total config)
            (stage_amounts (score_to_exposure i.score.total config) w (of_ℕ 0)) config,
        rw found,
      )

  evaluate_additional_entry-returns :
      (s : ℕ)
      → IsReady config s
      → (d : TradeDecision) × (evaluate_additional_entry i s config ≡ ok d)
  unfolding evaluate_additional_entry calculate_stage_budget
  evaluate_additional_entry-returns s ((rule, found), (w, weight), (holding, state)) = (
    additional_decision i s rule holding
        (update_cycle_exposure_cap i.position.cycle_exposure_cap i.score.total config)
        (stage_amounts
          (update_cycle_exposure_cap i.position.cycle_exposure_cap i.score.total config) w
          i.position.staged_entry_capital)
        config,
    rw (found, weight, state),
  )

  evaluate_stages-returns :
      (stages : List ℕ)
      → All (IsReady config) stages
      → (d : TradeDecision) × (evaluate_stages stages i config ≡ ok d)
  unfolding evaluate_stages
  evaluate_stages-returns [] h = elim (Bool-cases (is_state i.position.state partial_tp_1)) [
    | inl e ↦ (evaluate_rebuy i config, rw e)
    | inr e ↦ (not_eligible, rw e)
  ]
  evaluate_stages-returns (s ∷ stages) h =
      let (holding, state) = h.0.2 in
      let (d, ih) = evaluate_stages-returns stages h.1 in
      let (d', here) = evaluate_additional_entry-returns s h.0 in
      elim (Bool-cases (is_state i.position.state holding)) [
        | inl e ↦ (d', rw (state, e) here)
        | inr e ↦ (d, rw (state, e) ih)
      ]

  -- With a first stage, and with additional stages numbered from 2 to 5 that each have a
  -- cumulative weight, every position, score and snapshot gets a decision: nothing raises.
  pub evaluate_strategy-returns :
      HasStages config → (d : TradeDecision) × (evaluate_strategy i config ≡ ok d)
  unfolding evaluate_strategy
  evaluate_strategy-returns v = elim (Bool-cases (is_state i.position.state empty)) [
    | inl e ↦ let (d, h) = evaluate_entry-returns v in (d, rw e h)
    | inr e ↦
        let (d, h) =
          evaluate_stages-returns (sorted_stages config.additional_entry)
            (stages-IsReady config v) in
        (d, rw e h)
  ]
