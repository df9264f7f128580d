-- ===== src/Core/Enums.antt =====
-- core/enums.py. The enums are compared by `==` and `in`; `is_state` is that test for states.
use jh_holdings.Prelude.{Bool, true, false, List, any}

pub data MarketRegime : Type 0 where
  green yellow red : MarketRegime

pub data SignalGrade : Type 0 where
  grade_s grade_a grade_b watch no_trade : SignalGrade

pub data DecisionType : Type 0 where
  no_action first_entry_candidate add_entry_candidate rebuy_candidate risk_review : DecisionType
  core_rebalance_buy : DecisionType

pub data PositionState : Type 0 where
  empty waiting_1st_approval waiting_1st_fill holding_1st : PositionState
  waiting_2nd_approval waiting_2nd_fill holding_2nd : PositionState
  waiting_3rd_approval waiting_3rd_fill holding_3rd : PositionState
  waiting_4th_approval waiting_4th_fill holding_4th : PositionState
  partial_tp_1 waiting_rebuy_approval waiting_rebuy_fill holding_rebuy : PositionState
  cooldown safe_mode : PositionState

-- `OrderPurpose`, and the other texts that an order has as its purpose
pub data OrderPurpose : Type 0 where
  entry_1 entry_2 entry_3 entry_4 rebuy tp1 tp2 panic : OrderPurpose
  core_buy core_sell remainder_exit : OrderPurpose
  sgov_sweep_buy sgov_entry_release : OrderPurpose

pub data RiskReviewLevel : Type 0 where
  none_level info review_level high : RiskReviewLevel

unfoldable pub PositionState-discrete : Discrete PositionState
PositionState-discrete = hlevel

unfoldable pub MarketRegime-discrete : Discrete MarketRegime
MarketRegime-discrete = hlevel

-- `a == b` on states
abbrev pub is_state : PositionState → PositionState → Bool
is_state a b = elim (PositionState-discrete a b) [ yes _ ↦ true | no _ ↦ false ]

-- `a in states`
abbrev pub in_states : PositionState → List PositionState → Bool
in_states a = any (is_state a)

abbrev pub is_red : MarketRegime → Bool
is_red red = true
is_red _ = false

pub data ApprovalStage : Type 0 where
  review execution : ApprovalStage

-- `a == b`
abbrev pub same_stage : ApprovalStage → ApprovalStage → Bool
same_stage review review = true
same_stage execution execution = true
same_stage _ _ = false
