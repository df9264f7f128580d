-- ===== src/Store/IdleFills.antt =====
-- application/database.py: `idle_cash_state`, `idle_cash_fill_progress` and `apply_idle_cash_fill`.
-- One symbol's row is the whole state; a side is BUY or SELL, as for the core fills.
pub mod Laws
use jh_holdings.Prelude.{
  ℕ, ◌+◌, ◌-◌, String, Option, none, some, List, [], ◌∷◌, Bool, true, false, not, ltb, ◌==◌,
  if◌then◌else◌, str_eq, Result, ok, raise, ◌>>=◌, ◌>>◌, raise_if,
}
use jh_holdings.Decimal.{Decimal, of_ℕ, ◌⊕◌, ◌⊖◌, ◌⊗◌, divide, less}
use jh_holdings.Core.Enums.{OrderPurpose}
use jh_holdings.Orders.Ledger.{OrderRow, Table, Side, buy, sell, is_terminal, find_order, put_order}
use jh_holdings.Store.Fills.{
  FillError, missing_order, quantity_shrinks, notional_shrinks, oversold, not_managed,
  missing_state, Progress, progress_of, upsert, notional_of, needed,
}

pub record IdleState : Type 0 where
  pub symbol : String
  pub managed_qty : ℕ
  pub avg_price : Decimal
  pub version : ℕ

pub record IdleTables : Type 0 where
  pub orders : Table
  pub state : Option IdleState
  pub progress : List Progress

-- `purpose.startswith("SGOV_")`
abbrev pub is_idle : OrderPurpose → Bool
is_idle OrderPurpose.sgov_sweep_buy = true
is_idle OrderPurpose.sgov_entry_release = true
is_idle _ = false

abbrev pub of_symbol : String → Option IdleState → Option IdleState
of_symbol symbol none = none
of_symbol symbol (some s) = if str_eq s.symbol symbol then some s else none

-- the state after `delta` new shares for `notional`
unfoldable pub traded : Side → ℕ → Decimal → IdleState → Result FillError IdleState
traded buy delta notional s = ok (record s {
  managed_qty = s.managed_qty + delta;
  avg_price = divide (s.avg_price ⊗ of_ℕ s.managed_qty ⊕ notional) (of_ℕ (s.managed_qty + delta));
  version = s.version + 1;
})
traded sell delta notional s = do
  raise_if (ltb s.managed_qty delta) oversold
  ok (record s {
    managed_qty = s.managed_qty - delta;
    avg_price = if s.managed_qty - delta == 0 then of_ℕ 0 else s.avg_price;
    version = s.version + 1;
  })

abbrev traded_new : OrderRow → ℕ → Progress → IdleState → Result FillError IdleState
traded_new order delta p s = do
  raise_if (less (notional_of order ⊖ p.applied_notional) (of_ℕ 0)) notional_shrinks
  traded order.side delta (notional_of order ⊖ p.applied_notional) s

unfoldable pub next_state : OrderRow → Progress → IdleState → Result FillError IdleState
next_state order p s =
    let changed = traded_new order (order.filled_qty - p.applied_filled_qty) p s in
    if ltb p.applied_filled_qty order.filled_qty then changed else ok s

abbrev pub progressed : OrderRow → Progress → Progress
progressed order p = record {
  client_order_id = order.client_order_id;
  applied_filled_qty = order.filled_qty;
  applied_notional = if ltb 0 order.filled_qty then notional_of order else p.applied_notional;
}

abbrev marked : OrderRow → Table → Table
marked order orders =
    if is_terminal order.status then put_order (record order { applied = true }) orders else orders

unfoldable pub apply_idle_order : OrderRow → IdleTables → Result FillError IdleTables
apply_idle_order order tables = do
  raise_if (not (is_idle order.purpose)) not_managed
  s ← needed (of_symbol order.symbol tables.state) missing_state
  raise_if
      (ltb order.filled_qty (progress_of order.client_order_id tables.progress).applied_filled_qty)
      quantity_shrinks
  s' ← next_state order (progress_of order.client_order_id tables.progress) s
  ok (record {
    orders = marked order tables.orders;
    state = some s';
    progress =
        upsert (progressed order (progress_of order.client_order_id tables.progress))
          tables.progress;
  })

-- `apply_idle_cash_fill`; a raise rolls the transaction back
unfoldable pub apply_idle_cash_fill : ℕ → IdleTables → Result FillError IdleTables
apply_idle_cash_fill id tables = do
  order ← needed (find_order id tables.orders) missing_order
  apply_idle_order order tables
