-- ===== src/Positions/Buys.antt =====
-- application/position_manager.py: `apply_buy_fill`.
use jh_holdings.Prelude.{
  ℕ, ◌+◌, String, Option, none, some, List, [], ◌∷◌, false, not, ◌==◌, if◌then◌else◌,
}
use jh_holdings.Decimal.{Decimal, of_ℕ, ◌⊕◌, ◌⊖◌, ◌⊗◌, divide, max}
use jh_holdings.Core.Enums.{DecisionType, PositionState, is_state}
use jh_holdings.Core.Models.{PositionSnapshot, TakeProfitPlan}
use jh_holdings.Core.Config.{StrategyConfig}
use jh_holdings.Core.TakeProfit.{calculate_take_profit, cent}
use jh_holdings.Orders.Ledger.{OrderRow}
use jh_holdings.Store.Signals.{SignalRow}
use jh_holdings.Store.Positions.{Change, Transition}
use jh_holdings.Store.Plans.{TpPlan, NewPlan}
use jh_holdings.Positions.Book.{
  Run, FillError, return, guard, found, plan_result, given, ◌>>=◌, ◌>>◌, read_order, read_signal,
  position_of, plan_of, new_plan, move, mark_applied,
}

-- `WAITING_FILL_BY_ACTION_STAGE` and `HOLDING_BY_ACTION_STAGE`, with a missing key as `none`
abbrev pub stage_states : ℕ → Option (PositionState × PositionState)
stage_states n =
    if n == 2
    then some (PositionState.waiting_2nd_fill, PositionState.holding_2nd)
    else if n == 3
    then some (PositionState.waiting_3rd_fill, PositionState.holding_3rd)
    else if n == 4
    then some (PositionState.waiting_4th_fill, PositionState.holding_4th)
    else none

unfoldable pub fill_states : DecisionType → Option ℕ → Option (PositionState × PositionState)
fill_states DecisionType.first_entry_candidate (some n) =
    if n == 1 then some (PositionState.waiting_1st_fill, PositionState.holding_1st) else none
fill_states DecisionType.add_entry_candidate (some n) = stage_states n
fill_states DecisionType.rebuy_candidate none =
    some (PositionState.waiting_rebuy_fill, PositionState.holding_rebuy)
fill_states _ _ = none

-- `int(x) if x else None`
abbrev pub nonzero : Option ℕ → Option ℕ
nonzero none = none
nonzero (some n) = if n == 0 then none else some n

-- what the fill is made of
pub record BuyFill : Type 0 where
  pub action : DecisionType
  pub target_stage : Option ℕ
  pub quantity : ℕ
  pub price : Decimal
  pub new_cycle : String

unfoldable pub average_after : PositionSnapshot → BuyFill → Decimal
average_after p fill =
    divide (p.average_price ⊗ of_ℕ p.quantity ⊕ fill.price ⊗ of_ℕ fill.quantity)
      (of_ℕ (p.quantity + fill.quantity))

unfoldable pub gross : StrategyConfig → BuyFill → Decimal
gross config fill = fill.price ⊗ of_ℕ fill.quantity ⊗ (of_ℕ 1 ⊕ config.global.buy_fee)

-- the columns that depend on the action
pub record CycleColumns : Type 0 where
  pub cycle_id : Option String
  pub entry_count : ℕ
  pub staged : Decimal
  pub anchor : Decimal
  pub rebuy_count : ℕ

abbrev pub stage_or_next : Option ℕ → ℕ → ℕ
stage_or_next none count = count + 1
stage_or_next (some n) count = n

unfoldable pub cycle_columns :
    DecisionType → StrategyConfig → PositionSnapshot → BuyFill → CycleColumns
cycle_columns DecisionType.first_entry_candidate config p fill = record {
  cycle_id = some fill.new_cycle;
  entry_count = 1;
  staged = gross config fill;
  anchor = fill.price;
  rebuy_count = p.rebuy_count;
}
cycle_columns DecisionType.add_entry_candidate config p fill = record {
  cycle_id = p.cycle_id;
  entry_count = stage_or_next fill.target_stage p.entry_count;
  staged = p.staged_entry_capital ⊕ gross config fill;
  anchor = p.anchor_price;
  rebuy_count = p.rebuy_count;
}
cycle_columns _ config p fill = record {
  cycle_id = p.cycle_id;
  entry_count = p.entry_count;
  staged = p.staged_entry_capital;
  anchor = p.anchor_price;
  rebuy_count = p.rebuy_count + 1;
}

abbrev pub buy_updates :
    StrategyConfig → PositionSnapshot → SignalRow → BuyFill → CycleColumns → ℕ → List Change
buy_updates config p signal fill cycle plan_id =
    Change.cycle_id cycle.cycle_id
    ∷ Change.qty (p.quantity + fill.quantity)
    ∷ Change.avg_price (average_after p fill)
    ∷ Change.current_cost_basis (average_after p fill ⊗ of_ℕ (p.quantity + fill.quantity))
    ∷ Change.cycle_exposure_cap signal.cycle_exposure_cap
    ∷ Change.staged_entry_capital cycle.staged
    ∷ Change.cash_remaining (
        max (of_ℕ 0) (
          config.global.capital_per_symbol
          ⊖ average_after p fill ⊗ of_ℕ (p.quantity + fill.quantity)))
    ∷ Change.entry_count cycle.entry_count
    ∷ Change.anchor_price cycle.anchor
    ∷ Change.last_entry_price fill.price
    ∷ Change.last_entry_date (some signal.key.trade_date)
    ∷ Change.rebuy_count cycle.rebuy_count
    ∷ Change.rebuy_recovery_armed false
    ∷ Change.tp1_filled_qty 0
    ∷ Change.tp_plan_id (some plan_id)
    ∷ []

unfoldable pub buy_plan : OrderRow → Option String → TakeProfitPlan → NewPlan
buy_plan order cycle tp = record {
  cycle_id = cycle;
  symbol = order.symbol;
  source_event = order.purpose;
  average_price = tp.average_price;
  atr_pct = tp.atr_pct;
  tp1_price = tp.tp1_price;
  tp1_target_qty = tp.tp1_quantity;
  tp2_price = tp.tp2_price;
  tp2_target_qty = tp.tp2_quantity;
}

unfoldable pub buy_transition :
    StrategyConfig
    → OrderRow
    → PositionSnapshot
    → SignalRow
    → BuyFill
    → PositionState × PositionState
    → ℕ
    → Transition
buy_transition config order p signal fill states plan_id = record {
  symbol = order.symbol;
  expected_state = states.0;
  new_state = states.1;
  reason_code = "BUY_FILL_CONFIRMED";
  updates = buy_updates config p signal fill (cycle_columns fill.action config p fill) plan_id;
  expected_version = some p.version;
}

-- the calls that write, once the plan is computed
unfoldable pub book_plan :
    StrategyConfig
    → OrderRow
    → PositionSnapshot
    → SignalRow
    → BuyFill
    → PositionState × PositionState
    → TakeProfitPlan
    → Run (Option TpPlan)
book_plan config order p signal fill states tp = do
  id ← new_plan (buy_plan order (cycle_columns fill.action config p fill).cycle_id tp)
  move (buy_transition config order p signal fill states id)
  mark_applied order.client_order_id
  plan_of order.symbol

-- the part after the position has been read
unfoldable pub book_buy :
    StrategyConfig
    → Decimal
    → OrderRow
    → SignalRow
    → PositionSnapshot
    → BuyFill
    → Run (Option TpPlan)
book_buy config atr_pct order signal p fill = do
  states ← given (found (fill_states fill.action fill.target_stage) FillError.unknown_action)
  guard (not (is_state p.state states.0)) FillError.wrong_state
  tp ← given (
      plan_result (
        calculate_take_profit (average_after p fill) (p.quantity + fill.quantity) atr_pct config
          cent))
  book_plan config order p signal fill states tp

abbrev pub buy_fill : OrderRow → SignalRow → Decimal → String → BuyFill
buy_fill order signal price new_cycle = record {
  action = signal.key.kind;
  target_stage = nonzero signal.target_stage;
  quantity = order.filled_qty;
  price = price;
  new_cycle = new_cycle;
}

-- an order with a fill, and its price
unfoldable pub book_filled :
    StrategyConfig → Decimal → String → OrderRow → Option Decimal → Run (Option TpPlan)
book_filled config atr_pct new_cycle order none = return none
book_filled config atr_pct new_cycle order (some price) = do
  signal ← read_signal order.signal_id
  p ← position_of order.symbol
  book_buy config atr_pct order signal p (buy_fill order signal price new_cycle)

unfoldable pub apply_row : StrategyConfig → Decimal → String → OrderRow → Run (Option TpPlan)
apply_row config atr_pct new_cycle order =
    if order.applied
    then plan_of order.symbol
    else if order.filled_qty == 0
    then return none
    else book_filled config atr_pct new_cycle order order.average_fill_price

-- `apply_buy_fill`; `new_cycle` is the text with the new UUID
unfoldable pub apply_buy_fill : StrategyConfig → Decimal → String → ℕ → Run (Option TpPlan)
apply_buy_fill config atr_pct new_cycle id = do
  order ← read_order id
  apply_row config atr_pct new_cycle order
