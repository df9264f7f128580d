-- ===== src/Core/Strategy/Dispatch.antt =====
-- `evaluate_strategy`: which kind of entry each position state may get.
use jh_holdings.Prelude.{
  ℕ, suc, ◌-◌, ◌≡◌, ◌≢◌, refl, inl, inr, true, false, List, [], ◌∷◌, Option, none, some, arith,
  Result, ok, raise, ◌>>=◌, Bool-cases, sym, ◌∙◌, subst, ok-injective,
}
use jh_holdings.Decimal.{Decimal}
use jh_holdings.Core.Enums.{
  PositionState, empty, partial_tp_1, holding_1st, holding_2nd, holding_3rd, holding_4th, red,
  is_state, in_states, DecisionType, first_entry_candidate, add_entry_candidate, rebuy_candidate,
  no_action,
}
use jh_holdings.Core.Models.{TradeDecision}
use jh_holdings.Core.Config.{StrategyConfig, StageRule}
use jh_holdings.Core.Strategy.Decisions.{
  evaluate_entry-allowed_iff, additional_decision-allowed, evaluate_rebuy-allowed_iff,
  evaluate_entry-decision,
}
use jh_holdings.Core.Strategy.{
  Inputs, StrategyError, unsupported_stage, unknown_holding_state, entry_decision,
  additional_decision, entry_gate, additional_gate, rebuy_gate, evaluate_entry, evaluate_rebuy,
  evaluate_additional_entry, evaluate_stages, evaluate_strategy, expected_holding_state,
  calculate_stage_budget, not_eligible, stage_rule, sorted_stages, update_cycle_exposure_cap,
  or_raise,
}

-- The one kind of entry that a position in this state may get.
abbrev pub entry_kind : PositionState → DecisionType
entry_kind empty = first_entry_candidate
entry_kind holding_1st = add_entry_candidate
entry_kind holding_2nd = add_entry_candidate
entry_kind holding_3rd = add_entry_candidate
entry_kind holding_4th = add_entry_candidate
entry_kind partial_tp_1 = rebuy_candidate
entry_kind _ = no_action

-- What an allowed decision guarantees, whatever its kind.
pub record IsSound (i : Inputs) (config : StrategyConfig) (d : TradeDecision) : Type 0 where
  pub kind : d.action ≡ entry_kind i.position.state
  pub acts : d.action ≢ no_action
  pub data_ok : i.data_ok ≡ true
  pub system_ok : i.system_ok ≡ true
  pub regime : i.score.regime ≢ red
  pub no_stop_loss : config.global.stop_loss_enabled ≡ false

abbrev Sound : Inputs → StrategyConfig → TradeDecision → Type 0
Sound i config d = d.allowed ≡ true → IsSound i config d

entry_kind-holding :
    (n : ℕ) (h : PositionState)
    → expected_holding_state n ≡ some h
    → entry_kind h ≡ add_entry_candidate
unfolding expected_holding_state
entry_kind-holding (suc ℕ.zero) h e = ground arith
entry_kind-holding (suc (suc ℕ.zero)) h e = ground arith
entry_kind-holding (suc (suc (suc ℕ.zero))) h e = ground arith
entry_kind-holding (suc (suc (suc (suc ℕ.zero)))) h e = ground arith
entry_kind-holding _ h e = cc

state_of : (a b : PositionState) → in_states a (b ∷ []) ≡ true → a ≡ b
state_of a b h = ground arith

-- A decision acts by its kind exactly when it is allowed.
entry_decision-action :
    (i : Inputs) (config : StrategyConfig) (capital : Decimal) (a : Decimal × Decimal)
    → (entry_decision i capital a config).allowed ≡ true
    → (entry_decision i capital a config).action ≡ first_entry_candidate
unfolding entry_decision
entry_decision-action i config capital a h = ground arith

additional_decision-action :
    (i : Inputs) (config : StrategyConfig) (stage : ℕ) (rule : StageRule) (holding : PositionState)
    (capital : Decimal) (a : Decimal × Decimal)
    → (additional_decision i stage rule holding capital a config).allowed ≡ true
    → (additional_decision i stage rule holding capital a config).action ≡ add_entry_candidate
unfolding additional_decision
additional_decision-action i config stage rule holding capital a h = ground arith

evaluate_rebuy-action :
    (i : Inputs) (config : StrategyConfig)
    → (evaluate_rebuy i config).allowed ≡ true
    → (evaluate_rebuy i config).action ≡ rebuy_candidate
unfolding evaluate_rebuy
evaluate_rebuy-action i config h = ground arith

entry-Sound :
    (i : Inputs) (config : StrategyConfig) (d : TradeDecision)
    → evaluate_entry i config ≡ ok d
    → Sound i config d
unfolding entry_gate
entry-Sound i config d e allowed =
    let (capital, a, q) = evaluate_entry-decision i config d e in
    let (p, _) = (evaluate_entry-allowed_iff i config d e).0 allowed in
    let s = state_of i.position.state empty p.state in
    let k : d.action ≡ first_entry_candidate =
      rw q (entry_decision-action i config capital a (rw q at allowed)) in
    record {
      kind = rw (k, s);
      acts = rw k (ground arith);
      data_ok = p.data_ok;
      system_ok = p.system_ok;
      regime = p.regime;
      no_stop_loss = p.no_stop_loss;
    }

module _ (i : Inputs) (config : StrategyConfig) where
  additional_decision-Sound :
      (stage : ℕ) (rule : StageRule) (holding : PositionState) (capital : Decimal)
      (a : Decimal × Decimal)
      → expected_holding_state (stage - 1) ≡ some holding
      → Sound i config (additional_decision i stage rule holding capital a config)
  unfolding additional_gate
  additional_decision-Sound stage rule holding capital a found allowed =
      let (p, _, _) =
        (additional_decision-allowed i config stage rule holding capital a).0 allowed in
      let s = state_of i.position.state holding p.state in
      let k = additional_decision-action i config stage rule holding capital a allowed in
      record {
        kind = k ∙ sym (rw s (entry_kind-holding (stage - 1) holding found));
        acts = rw k (ground arith);
        data_ok = p.data_ok;
        system_ok = p.system_ok;
        regime = p.regime;
        no_stop_loss = p.no_stop_loss;
      }

  rebuy-Sound : Sound i config (evaluate_rebuy i config)
  unfolding rebuy_gate
  rebuy-Sound allowed =
      let (p, _) = (evaluate_rebuy-allowed_iff i config).0 allowed in
      let s = state_of i.position.state partial_tp_1 p.state in
      let k = evaluate_rebuy-action i config allowed in
      record {
        kind = k ∙ sym (rw s);
        acts = rw k (ground arith);
        data_ok = p.data_ok;
        system_ok = p.system_ok;
        regime = p.regime;
        no_stop_loss = p.no_stop_loss;
      }

  not_eligible-Sound : Sound i config not_eligible
  unfolding not_eligible
  not_eligible-Sound h = cc

  -- A rule for each way to go on: what holds of the parts holds of the whole.
  bind-Sound {ℓ} :
      {A : Type ℓ} (m : Result StrategyError A) (f : A → Result StrategyError TradeDecision)
      → ((a : A) → m ≡ ok a → (d : TradeDecision) → f a ≡ ok d → Sound i config d)
      → (d : TradeDecision) → (m >>= f) ≡ ok d
      → Sound i config d
  bind-Sound (ok a) f h d e = h a refl d e
  bind-Sound (raise x) f h d e = cc

  or_raise-eq-ok {ℓ} :
      {A : Type ℓ} (o : Option A) (x : StrategyError) (a : A) → or_raise o x ≡ ok a → o ≡ some a
  or_raise-eq-ok none x a e = cc
  or_raise-eq-ok (some b) x a e = cc

  additional-Sound :
      (stage : ℕ) (d : TradeDecision)
      → evaluate_additional_entry i stage config ≡ ok d
      → Sound i config d
  unfolding evaluate_additional_entry
  additional-Sound stage =
      let capital = update_cycle_exposure_cap i.position.cycle_exposure_cap i.score.total config in
      let staged = i.position.staged_entry_capital in
      bind-Sound (or_raise (stage_rule stage config.additional_entry) unsupported_stage) _ λ rule _.
        bind-Sound (calculate_stage_budget capital stage staged config) _ λ a _.
          bind-Sound (or_raise (expected_holding_state (stage - 1)) unknown_holding_state) _
            λ holding found d e. subst (Sound i config) (ok-injective e) (
              additional_decision-Sound stage rule holding capital a
                (or_raise-eq-ok _ unknown_holding_state _ found))

  stages-Sound :
      (stages : List ℕ) (d : TradeDecision)
      → evaluate_stages stages i config ≡ ok d
      → Sound i config d
  unfolding evaluate_stages
  stages-Sound [] d e = elim (Bool-cases (is_state i.position.state partial_tp_1)) [
    | inl h ↦ subst (Sound i config) (ok-injective (rw h at e)) rebuy-Sound
    | inr h ↦ subst (Sound i config) (ok-injective (rw h at e)) not_eligible-Sound
  ]
  stages-Sound (stage ∷ stages) d e =
      let ih = stages-Sound stages in
      bind-Sound (or_raise (expected_holding_state (stage - 1)) unknown_holding_state) _
        (λ holding _ d' e'. elim (Bool-cases (is_state i.position.state holding)) [
          | inl h ↦ additional-Sound stage d' (rw h at e')
          | inr h ↦ ih d' (rw h at e')
        ])
        d e

  -- An allowed decision is of the one kind that the state of the position admits, acts, and
  -- never comes from bad data, a stopped system, a RED regime or a configuration with a stop-
  -- loss.
  pub evaluate_strategy-IsSound :
      (d : TradeDecision)
      → evaluate_strategy i config ≡ ok d
      → d.allowed ≡ true
      → IsSound i config d
  unfolding evaluate_strategy
  evaluate_strategy-IsSound d e = elim (Bool-cases (is_state i.position.state empty)) [
    | inl h ↦ entry-Sound i config d (rw h at e)
    | inr h ↦ stages-Sound (sorted_stages config.additional_entry) d (rw h at e)
  ]
