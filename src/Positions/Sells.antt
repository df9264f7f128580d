-- ===== src/Positions/Sells.antt =====
-- application/position_manager.py: `apply_sell_fill`.
use jh_holdings.Prelude.{
  ℕ, ◌+◌, ◌-◌, String, Option, none, some, List, [], ◌∷◌, ◌++◌, Bool, true, false, not, ◌&&◌, ltb,
  ◌==◌, if◌then◌else◌,
}
use Prim.Native.Nat.{min as least}
use jh_holdings.Decimal.{Decimal, of_ℕ, ◌⊖◌, ◌⊗◌, max}
use jh_holdings.Core.Enums.{OrderPurpose, PositionState}
use jh_holdings.Core.Models.{PositionSnapshot}
use jh_holdings.Core.Config.{StrategyConfig}
use jh_holdings.Orders.Ledger.{OrderRow, is_terminal, find_order}
use jh_holdings.Store.Positions.{Change, Transition}
use jh_holdings.Store.Plans.{TpPlan, Leg, first, second, target_qty, filled_qty}
use jh_holdings.Positions.Book.{
  Run, FillError, return, guard, found, given, ◌>>=◌, ◌>>◌, position_of, plan_of, move, set_filled,
  end_plan, mark_applied, note_completed,
}

abbrev pub is_tp1 : OrderPurpose → Bool
is_tp1 OrderPurpose.tp1 = true
is_tp1 _ = false

-- the leg of a purpose; `none` is the purpose that is refused
unfoldable pub leg_of : OrderPurpose → Option Leg
leg_of OrderPurpose.tp1 = some first
leg_of OrderPurpose.tp2 = some second
leg_of OrderPurpose.remainder_exit = some second
leg_of _ = none

-- the leg's fill after the order's cumulative fill; `max(0, target - qty)` is `target - qty` on ℕ
unfoldable pub leg_filled : Leg → TpPlan → OrderRow → ℕ
leg_filled leg plan order =
    least (target_qty leg plan) (target_qty leg plan - order.qty + order.filled_qty)

unfoldable pub kept_average : PositionSnapshot → ℕ → Decimal
kept_average p quantity = if quantity == 0 then of_ℕ 0 else p.average_price

-- the amounts that every sale sets
abbrev pub sold : PositionSnapshot → ℕ → List Change
sold p quantity =
    Change.qty quantity
    ∷ Change.avg_price (kept_average p quantity)
    ∷ Change.current_cost_basis (kept_average p quantity ⊗ of_ℕ quantity)
    ∷ []

abbrev pub closed : StrategyConfig → List Change
closed config =
    Change.cycle_id none
    ∷ Change.qty 0
    ∷ Change.avg_price (of_ℕ 0)
    ∷ Change.current_cost_basis (of_ℕ 0)
    ∷ Change.cycle_exposure_cap (of_ℕ 0)
    ∷ Change.staged_entry_capital (of_ℕ 0)
    ∷ Change.cash_remaining config.global.capital_per_symbol
    ∷ Change.entry_count 0
    ∷ Change.anchor_price (of_ℕ 0)
    ∷ Change.last_entry_price (of_ℕ 0)
    ∷ Change.last_entry_date none
    ∷ Change.rebuy_count 0
    ∷ Change.rebuy_recovery_armed false
    ∷ Change.tp1_filled_qty 0
    ∷ Change.tp_plan_id none
    ∷ []

abbrev pub first_leg_done : StrategyConfig → PositionSnapshot → ℕ → ℕ → List Change
first_leg_done config p quantity leg =
    sold p quantity
    ++ (Change.cash_remaining (
          max (of_ℕ 0) (config.global.capital_per_symbol ⊖ kept_average p quantity ⊗ of_ℕ quantity))
        ∷ Change.tp1_filled_qty leg
        ∷ Change.rebuy_recovery_armed false
        ∷ [])

-- the new state and the updates, once the leg is not left partly filled by a first take profit
unfoldable pub sale :
    StrategyConfig → OrderPurpose → PositionSnapshot → ℕ → ℕ → PositionState × List Change
sale config purpose p quantity leg =
    if quantity == 0
    then (PositionState.empty, closed config)
    else if is_tp1 purpose
    then (PositionState.partial_tp_1, first_leg_done config p quantity leg)
    else (p.state, sold p quantity)

-- the reason's text, `f"{purpose}_FILL_CONFIRMED"`
abbrev pub confirmed : OrderPurpose → String
confirmed OrderPurpose.tp1 = "TP1_FILL_CONFIRMED"
confirmed OrderPurpose.tp2 = "TP2_FILL_CONFIRMED"
confirmed _ = "REMAINDER_EXIT_FILL_CONFIRMED"

unfoldable pub sell_transition :
    String → PositionSnapshot → PositionState × List Change → String → Transition
sell_transition symbol p change reason = record {
  symbol = symbol;
  expected_state = p.state;
  new_state = change.0;
  reason_code = reason;
  updates = change.1;
  expected_version = some p.version;
}

abbrev pub only_if : Bool → Run (Unit {0}) → Run (Unit {0})
only_if c call = elim c [ true ↦ call | false ↦ return tt ]

-- the moment of a first take profit that leaves a holding, under its cycle
abbrev pub note_first : OrderRow → Option String → ℕ → Run (Unit {0})
note_first order none at = return tt
note_first order (some cycle) at =
    note_completed (record { symbol = order.symbol; cycle_id = cycle; at = at })

abbrev pub finish : OrderRow → Run (Unit {0})
finish order = only_if (is_terminal order.status) (mark_applied order.client_order_id)

unfoldable pub book_rest :
    StrategyConfig → ℕ → OrderRow → PositionSnapshot → TpPlan → ℕ → ℕ → Run (Unit {0})
book_rest config at order p plan quantity leg = do
  move (
      sell_transition order.symbol p (sale config order.purpose p quantity leg)
        (confirmed order.purpose))
  only_if (is_tp1 order.purpose && not (quantity == 0)) (note_first order p.cycle_id at)
  only_if (quantity == 0) (end_plan plan.tp_plan_id)
  finish order

unfoldable pub book_partial : OrderRow → PositionSnapshot → ℕ → Run (Unit {0})
book_partial order p quantity = do
  move (sell_transition order.symbol p (p.state, sold p quantity) "TP1_PARTIAL_FILL")
  finish order

unfoldable pub book_leg :
    StrategyConfig → ℕ → OrderRow → PositionSnapshot → TpPlan → Leg → Run (Unit {0})
book_leg config at order p plan leg =
    let filled = leg_filled leg plan order in
    let quantity = p.quantity - (filled - filled_qty leg plan) in
    do
      guard (ltb filled (filled_qty leg plan)) FillError.fill_shrinks
      guard (ltb p.quantity (filled - filled_qty leg plan)) FillError.oversold
      set_filled plan.tp_plan_id leg filled
      elim (is_tp1 order.purpose && ltb filled (target_qty leg plan)) [
        | true ↦ book_partial order p quantity
        | false ↦ book_rest config at order p plan quantity filled
      ]

-- the part for an order that is there, with a fill that is not yet applied
unfoldable pub book_sell : StrategyConfig → ℕ → OrderRow → Run (Unit {0})
book_sell config at order = do
  p ← position_of order.symbol
  found_plan ← plan_of order.symbol
  plan ← given (found found_plan FillError.no_plan)
  leg ← given (found (leg_of order.purpose) FillError.unknown_purpose)
  book_leg config at order p plan leg

abbrev pub sell_row : StrategyConfig → ℕ → Option OrderRow → Run (Unit {0})
sell_row config at none = return tt
sell_row config at (some order) =
    if order.applied
    then return tt
    else if order.filled_qty == 0
    then return tt
    else book_sell config at order

-- `apply_sell_fill`; `at` is the order's `updated_at`
unfoldable pub apply_sell_fill : StrategyConfig → ℕ → ℕ → Run (Unit {0})
apply_sell_fill config at id book = sell_row config at (find_order id book.orders) book
