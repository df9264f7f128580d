-- ===== src/Positions/BuyRuns.antt =====
-- The outcome of a buy fill.
use jh_holdings.Prelude.{
  ℕ, ◌+◌, ◌<◌, ◌≡◌, refl, sym, subst, ap, String, Option, some, true, false, ◌==◌, arith, Result,
  ok,
}
use jh_holdings.Decimal.{Decimal, of_ℕ, ◌⊕◌, ◌⊗◌, ◌≺◌, ◌≈◌}
use jh_holdings.Core.Config.{StrategyConfig}
use jh_holdings.Core.Enums.{PositionState, is_state}
use jh_holdings.Core.Models.{PositionSnapshot, TakeProfitPlan}
use jh_holdings.Core.TakeProfit.{take_profit_plan, calculate_take_profit, cent}
use jh_holdings.Core.TakeProfit.Laws.{calculate_take_profit-split}
use jh_holdings.Decimal.Laws.{not_leq_of_≺}
use jh_holdings.Decimal.Mean.{divide-⊗}
use jh_holdings.Orders.Ledger.{OrderRow, find_order, mark_order_applied}
use jh_holdings.Store.Signals.{SignalRow, get_signal}
use jh_holdings.Store.Positions.{
  PositionRow, find_position, get_position, Transition, moved_row, moved_ledger, set_columns,
}
use jh_holdings.Store.Positions.Laws.{find-moved_ledger, transition_total}
use jh_holdings.Store.Plans.{TpPlan, NewPlan, active_tp_plan, create_tp_plan, plan_row, next_id}
use jh_holdings.Store.Plans.Laws.{active-create_tp_plan}
use jh_holdings.Positions.Book.{Book, FillError, after}
use jh_holdings.Positions.Buys.{
  BuyFill, fill_states, nonzero, buy_fill, average_after, cycle_columns, buy_plan, buy_transition,
  book_plan, book_buy, book_filled, apply_row, apply_buy_fill,
}
use jh_holdings.Positions.Balance.{Balanced}

-- A buy fill that is booked: the plan it makes is active and balances the position, which holds
-- the old shares and the new ones at the mean of their costs.
unfoldable pub BuyDone :
    OrderRow
    → SignalRow
    → PositionSnapshot
    → Decimal
    → Book × Result FillError (Option TpPlan)
    → Type 0
BuyDone order signal old price run =
    (plan : TpPlan) × (run.1 ≡ ok (some plan))
    × Balanced order.symbol run.0
    × ((new : PositionRow) × (find_position order.symbol run.0.ledger.positions ≡ some new)
        × (new.snapshot.quantity ≡ old.quantity + order.filled_qty)
        × (new.snapshot.average_price ⊗ of_ℕ new.snapshot.quantity
            ≈ old.average_price ⊗ of_ℕ old.quantity ⊕ price ⊗ of_ℕ order.filled_qty))

-- What the calls leave.
abbrev booked : Book → OrderRow → PositionRow → Transition → NewPlan → Book
booked book order row t p = record book {
  orders = (mark_order_applied order.client_order_id book.orders).0;
  ledger = moved_ledger t row book.ledger;
  plans = (create_tp_plan p book.plans).0;
}

module _ (config : StrategyConfig) (order : OrderRow) (signal : SignalRow) (fill : BuyFill)
    (book : Book) (row : PositionRow)
    (found : find_position order.symbol book.ledger.positions ≡ some row) where
  abbrev the_plan : TakeProfitPlan → NewPlan
  the_plan tp = buy_plan order (cycle_columns fill.action config row.snapshot fill).cycle_id tp

  abbrev the_move : PositionState × PositionState → Transition
  the_move states = buy_transition config order row.snapshot signal fill states (next_id book.plans)

  book_plan_runs :
      (states : PositionState × PositionState) (tp : TakeProfitPlan)
      → is_state row.snapshot.state states.0 ≡ true
      → book_plan config order row.snapshot signal fill states tp book ≡ (
        booked book order row (the_move states) (the_plan tp),
        ok (active_tp_plan order.symbol (create_tp_plan (the_plan tp) book.plans).0),
      )
  unfolding book_plan buy_transition create_tp_plan
  book_plan_runs states tp h =
      rw (transition_total (the_move states) book.ledger row found h (ground arith)) refl

  booked-Balanced :
      (states : PositionState × PositionState) (tp : TakeProfitPlan)
      → tp.tp1_quantity + tp.tp2_quantity ≡ row.snapshot.quantity + fill.quantity
      → Balanced order.symbol (booked book order row (the_move states) (the_plan tp))
  unfolding buy_transition buy_plan moved_row set_columns
  booked-Balanced states tp split = record {
    row = moved_row (the_move states) row;
    plan = plan_row (next_id book.plans) (the_plan tp);
    held = find-moved_ledger (the_move states) book.ledger row found;
    planned = active-create_tp_plan (the_plan tp) book.plans;
    balance = omega (arith, split);
    first_le = omega arith;
    second_le = omega arith;
  }

  take_profit_total :
      (atr_pct : Decimal)
      → of_ℕ 0 ≺ average_after row.snapshot fill
      → 0 < row.snapshot.quantity + fill.quantity
      → (tp : TakeProfitPlan) × (calculate_take_profit
            (average_after row.snapshot fill)
            (row.snapshot.quantity + fill.quantity)
            atr_pct
            config
            cent
          ≡ ok tp)
  unfolding calculate_take_profit
  take_profit_total atr_pct positive some_held =
      let t : (row.snapshot.quantity + fill.quantity == 0) ≡ false = ground arith in
      (
        take_profit_plan (average_after row.snapshot fill) (row.snapshot.quantity + fill.quantity)
            atr_pct config cent,
        rw (not_leq_of_≺ (of_ℕ 0) (average_after row.snapshot fill) positive, t) refl,
      )

  -- the row that the fill leaves: what is held, and that its cost is the old one and the fill's
  abbrev Bought : Book → Type 0
  Bought after =
      (new : PositionRow) × (find_position order.symbol after.ledger.positions ≡ some new)
      × (new.snapshot.quantity ≡ row.snapshot.quantity + fill.quantity)
      × (new.snapshot.average_price ⊗ of_ℕ new.snapshot.quantity
          ≈ row.snapshot.average_price ⊗ of_ℕ row.snapshot.quantity
            ⊕ fill.price ⊗ of_ℕ fill.quantity)

  booked-Bought :
      (states : PositionState × PositionState) (tp : TakeProfitPlan)
      → 0 < row.snapshot.quantity + fill.quantity
      → Bought (booked book order row (the_move states) (the_plan tp))
  unfolding buy_transition buy_plan moved_row set_columns average_after
  booked-Bought states tp some_held = (
    moved_row (the_move states) row,
    find-moved_ledger (the_move states) book.ledger row found,
    refl,
    divide-⊗ _ (row.snapshot.quantity + fill.quantity) some_held,
  )

  book_buy_runs :
      (atr_pct : Decimal) (states : PositionState × PositionState)
      → fill_states fill.action fill.target_stage ≡ some states
      → is_state row.snapshot.state states.0 ≡ true
      → of_ℕ 0 ≺ average_after row.snapshot fill
      → 0 < row.snapshot.quantity + fill.quantity
      → (plan : TpPlan) × ((book_buy config atr_pct order signal row.snapshot fill book).1
          ≡ ok (some plan))
        × Balanced order.symbol (book_buy config atr_pct order signal row.snapshot fill book).0
        × Bought (book_buy config atr_pct order signal row.snapshot fill book).0
  unfolding book_buy buy_plan
  book_buy_runs atr_pct states known waiting positive some_held =
      let (tp, total) = take_profit_total atr_pct positive some_held in
      let run = book_plan_runs states tp waiting in
      let split = (calculate_take_profit-split _ _ atr_pct config cent tp total).1 in
      rw (known, waiting, total, run)
        (
          plan_row (next_id book.plans) (the_plan tp),
          ap (λ o. ok o) (active-create_tp_plan (the_plan tp) book.plans),
          booked-Balanced states tp split,
          booked-Bought states tp some_held,
        )

-- For an order with a fill at a price that is not applied, whose signal and position are there,
-- in the state that waits for the fill, with a positive mean price, `apply_buy_fill` returns a
-- new active plan that balances the position, and the position has the old and the new shares at
-- an average that times their number is the old cost and the cost of the fill.
pub apply_buy_fill-total :
    (config : StrategyConfig) (atr_pct : Decimal) (new_cycle : String) (id signal_id : ℕ)
    (book : Book) (order : OrderRow) (price : Decimal) (signal : SignalRow) (row : PositionRow)
    (states : PositionState × PositionState)
    → find_order id book.orders ≡ some order
    → order.applied ≡ false
    → (order.filled_qty == 0) ≡ false
    → order.average_fill_price ≡ some price
    → order.signal_id ≡ some signal_id
    → get_signal signal_id book.signals ≡ some signal
    → find_position order.symbol book.ledger.positions ≡ some row
    → fill_states signal.key.kind (nonzero signal.target_stage) ≡ some states
    → is_state row.snapshot.state states.0 ≡ true
    → of_ℕ 0 ≺ average_after row.snapshot (buy_fill order signal price new_cycle)
    → BuyDone order signal row.snapshot price (apply_buy_fill config atr_pct new_cycle id book)
unfolding apply_buy_fill apply_row book_filled get_position BuyDone
apply_buy_fill-total config atr_pct new_cycle id signal_id book order price signal row states there
      fresh filled priced named known held stated waiting positive =
    subst (BuyDone order signal row.snapshot price)
      (sym (reads there fresh filled priced named known held))
      (book_buy_runs config order signal (buy_fill order signal price new_cycle) book row held
        atr_pct states stated waiting positive (ground arith))
  where
    reads :
        find_order id book.orders ≡ some order
        → order.applied ≡ false
        → (order.filled_qty == 0) ≡ false
        → order.average_fill_price ≡ some price
        → order.signal_id ≡ some signal_id
        → get_signal signal_id book.signals ≡ some signal
        → find_position order.symbol book.ledger.positions ≡ some row
        → apply_buy_fill config atr_pct new_cycle id book
          ≡ book_buy config atr_pct order signal row.snapshot
              (buy_fill order signal price new_cycle)
              book
    reads a b c d e f g = ground arith
