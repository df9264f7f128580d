-- ===== src/Store/Fills.antt =====
-- application/database.py: `core_positions`, `core_fill_progress` and `apply_core_fill`. A side is
-- BUY or SELL, so that the branch for another text has no case here.
pub mod Laws
pub mod Reports
use jh_holdings.Prelude.{
  ℕ, ◌+◌, ◌-◌, String, Option, none, some, List, [], ◌∷◌, ◌++◌, map, Bool, true, false, not, ◌&&◌,
  ◌||◌, ltb, ◌==◌, if◌then◌else◌, str_eq, Result, ok, raise, ◌>>=◌, ◌>>◌, raise_if,
}
use jh_holdings.Decimal.{Decimal, of_ℕ, ◌⊕◌, ◌⊖◌, ◌⊗◌, divide, less, same}
use jh_holdings.Core.Enums.{OrderPurpose}
use jh_holdings.Orders.Ledger.{OrderRow, Table, Side, buy, sell, find_order}

pub record CoreRow : Type 0 where
  pub symbol : String
  pub trend_active : Bool
  pub target_weight : Decimal
  pub target_qty : ℕ
  pub signal_trade_date : Option ℕ
  pub qty : ℕ
  pub avg_price : Decimal
  pub cost_basis : Decimal
  pub version : ℕ

-- how much of an order's cumulative fill is in the ledger
pub record Progress : Type 0 where
  pub client_order_id : ℕ
  pub applied_filled_qty : ℕ
  pub applied_notional : Decimal

pub record CoreTables : Type 0 where
  pub orders : Table
  pub cores : List CoreRow
  pub progress : List Progress

pub data FillError : Type 0 where
  missing_order missing_core quantity_shrinks notional_shrinks cost_negative : FillError
  oversold not_managed missing_state : FillError

unfoldable pub find_core : String → List CoreRow → Option CoreRow
find_core symbol [] = none
find_core symbol (row ∷ rest) =
    let later = find_core symbol rest in if str_eq row.symbol symbol then some row else later

unfoldable pub put_core : CoreRow → List CoreRow → List CoreRow
put_core new [] = []
put_core new (row ∷ rest) =
    let later = row ∷ put_core new rest in
    if str_eq row.symbol new.symbol then new ∷ rest else later

unfoldable pub find_progress : ℕ → List Progress → Option Progress
find_progress id [] = none
find_progress id (p ∷ rest) =
    let later = find_progress id rest in if p.client_order_id == id then some p else later

-- `INSERT ... ON CONFLICT(client_order_id) DO UPDATE`
unfoldable pub upsert : Progress → List Progress → List Progress
upsert new [] = new ∷ []
upsert new (p ∷ rest) =
    let later = p ∷ upsert new rest in
    if p.client_order_id == new.client_order_id then new ∷ rest else later

-- an order with no progress has none applied
abbrev pub progress_or_none : ℕ → Option Progress → Progress
progress_or_none id none = record {
  client_order_id = id;
  applied_filled_qty = 0;
  applied_notional = of_ℕ 0;
}
progress_or_none id (some p) = p

abbrev pub progress_of : ℕ → List Progress → Progress
progress_of id table = progress_or_none id (find_progress id table)

-- `_decimal(a or b)` of two columns that may be empty: 0 where both are
abbrev or_zero : Option Decimal → Decimal
or_zero none = of_ℕ 0
or_zero (some p) = p

abbrev first_price : Option Decimal → Option Decimal → Decimal
first_price none price = or_zero price
first_price (some p) price = p

abbrev pub fill_price : OrderRow → Decimal
fill_price order = first_price order.average_fill_price order.price

-- `_decimal(order["average_fill_price"] or order["price"]) * filled`
abbrev pub notional_of : OrderRow → Decimal
notional_of order = fill_price order ⊗ of_ℕ order.filled_qty

abbrev pub needed {ℓ} : {A : Type ℓ} → Option A → FillError → Result FillError A
needed none e = raise e
needed (some a) e = ok a

-- quantity, average and cost after the newly reported part
pub record Holding : Type 0 where
  pub quantity : ℕ
  pub average : Decimal
  pub cost : Decimal

abbrev per_share : Decimal → ℕ → Decimal
per_share cost n = if n == 0 then of_ℕ 0 else divide cost (of_ℕ n)

abbrev kept_average : CoreRow → ℕ → Decimal
kept_average row n = if n == 0 then of_ℕ 0 else row.avg_price

unfoldable pub next_holding : Side → CoreRow → ℕ → Decimal → Result FillError Holding
next_holding buy row delta notional = do
  raise_if (less (row.cost_basis ⊕ notional) (of_ℕ 0)) cost_negative
  ok (record {
    quantity = row.qty + delta;
    average = per_share (row.cost_basis ⊕ notional) (row.qty + delta);
    cost = row.cost_basis ⊕ notional;
  })
next_holding sell row delta notional = do
  raise_if (ltb row.qty delta) oversold
  ok (record {
    quantity = row.qty - delta;
    average = kept_average row (row.qty - delta);
    cost = kept_average row (row.qty - delta) ⊗ of_ℕ (row.qty - delta);
  })

abbrev pub held_row : Holding → CoreRow → CoreRow
held_row h row = record row {
  qty = h.quantity;
  avg_price = h.average;
  cost_basis = h.cost;
  version = row.version + 1;
}

abbrev pub written : OrderRow → Decimal → CoreRow → Holding → CoreTables → CoreTables
written order notional row h tables = record tables {
  cores = put_core (held_row h row) tables.cores;
  progress =
      upsert
        (record {
          client_order_id = order.client_order_id;
          applied_filled_qty = order.filled_qty;
          applied_notional = notional;
        })
        tables.progress;
}

-- the part after the order and its core position have been read
unfoldable pub apply_delta :
    OrderRow → Decimal → Progress → CoreRow → CoreTables → Result FillError CoreTables
apply_delta order notional p row tables =
    let changed =
      next_holding order.side row (order.filled_qty - p.applied_filled_qty)
        (notional ⊖ p.applied_notional)
      >>= λ h. ok (written order notional row h tables) in
    let settled =
      order.filled_qty == p.applied_filled_qty && same (notional ⊖ p.applied_notional) (of_ℕ 0) in
    raise_if
      (ltb p.applied_filled_qty order.filled_qty && less (notional ⊖ p.applied_notional) (of_ℕ 0))
      notional_shrinks
    >> (if settled then ok tables else changed)

unfoldable pub apply_order : OrderRow → CoreTables → Result FillError CoreTables
apply_order order tables = do
  raise_if
      (ltb order.filled_qty (progress_of order.client_order_id tables.progress).applied_filled_qty)
      quantity_shrinks
  row ← needed (find_core order.symbol tables.cores) missing_core
  apply_delta order (notional_of order) (progress_of order.client_order_id tables.progress) row
      tables

-- `apply_core_fill`; a raise rolls the transaction back
unfoldable pub apply_core_fill : ℕ → CoreTables → Result FillError CoreTables
apply_core_fill id tables = do
  order ← needed (find_order id tables.orders) missing_order
  apply_order order tables

abbrev pub is_core : OrderPurpose → Bool
is_core OrderPurpose.core_buy = true
is_core OrderPurpose.core_sell = true
is_core _ = false

-- the test of `unapplied_core_fill_order_ids` on one order
unfoldable pub is_unapplied : OrderRow → Progress → Bool
is_unapplied order p =
    not (order.filled_qty == p.applied_filled_qty)
    || not (same (notional_of order) p.applied_notional)

-- `unapplied_core_fill_order_ids`; the rows stand in the order of their ids
unfoldable pub unapplied_core_fill_order_ids : Table → List Progress → List ℕ
unapplied_core_fill_order_ids [] progress = []
unapplied_core_fill_order_ids (order ∷ rest) progress =
    let later = unapplied_core_fill_order_ids rest progress in
    if is_core order.purpose
      && (ltb 0 order.filled_qty && is_unapplied order (progress_of order.client_order_id progress))
    then order.client_order_id ∷ later
    else later

-- `set_core_target`; a negative target has no value here
abbrev or_target : Option ℕ → ℕ → ℕ
or_target none old = old
or_target (some n) old = n

unfoldable pub target_row : String → Bool → Decimal → ℕ → Option ℕ → CoreRow → CoreRow
target_row symbol active weight date target row =
    if str_eq row.symbol symbol
    then record row {
      trend_active = active;
      target_weight = weight;
      signal_trade_date = some date;
      target_qty = or_target target row.target_qty;
      version = row.version + 1;
    }
    else row

abbrev pub set_core_target : String → Bool → Decimal → ℕ → Option ℕ → List CoreRow → List CoreRow
set_core_target symbol active weight date target cores =
    map (target_row symbol active weight date target) cores
