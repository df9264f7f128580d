-- ===== src/Orders/Ledger.antt =====
-- application/database.py: the `orders` table and the three calls that write it.
-- Order ids are only compared, so they are numbers; an empty broker id is `none`. A status text
-- outside `ALL_ORDER_STATUSES` is `unsupported`.
pub mod Laws
pub mod History
mod Tests
use jh_holdings.Prelude.{
  ℕ, String, Option, none, some, List, [], ◌∷◌, ◌++◌, Bool, true, false, not, ◌&&◌, ◌||◌, ltb, ◌==◌,
  if◌then◌else◌, Result, ok, raise, ◌>>=◌, ◌>>◌, raise_if,
}
use jh_holdings.Decimal.{Decimal, of_ℕ, leq}
use jh_holdings.Core.Enums.{OrderPurpose}

pub data OrderStatus : Type 0 where
  created submitted pending partial_filled pending_cancel pending_replace unknown : OrderStatus
  filled canceled rejected replaced : OrderStatus
  unsupported : OrderStatus

abbrev pub is_terminal : OrderStatus → Bool
is_terminal filled = true
is_terminal canceled = true
is_terminal rejected = true
is_terminal replaced = true
is_terminal _ = false

-- `OPEN_ORDER_STATUSES`
abbrev pub is_open : OrderStatus → Bool
is_open created = true
is_open submitted = true
is_open pending = true
is_open partial_filled = true
is_open pending_cancel = true
is_open pending_replace = true
is_open unknown = true
is_open _ = false

abbrev pub is_supported : OrderStatus → Bool
is_supported unsupported = false
is_supported _ = true

unfoldable pub OrderStatus-discrete : Discrete OrderStatus
OrderStatus-discrete = hlevel

-- `a == b`
abbrev pub same_status : OrderStatus → OrderStatus → Bool
same_status a b = elim (OrderStatus-discrete a b) [ yes _ ↦ true | no _ ↦ false ]

pub data Side : Type 0 where
  buy sell : Side

pub record OrderRow : Type 0 where
  pub client_order_id : ℕ
  pub symbol : String
  pub side : Side
  pub price : Option Decimal
  pub qty : ℕ
  pub purpose : OrderPurpose
  pub status : OrderStatus
  pub broker_order_id : Option ℕ
  pub filled_qty : ℕ
  pub average_fill_price : Option Decimal
  pub applied : Bool
  pub created_at : ℕ
  pub signal_id : Option ℕ

pub data LedgerError : Type 0 where
  unsupported_status missing_order terminal_reverted fill_shrinks fill_exceeds : LedgerError
  bad_fill_price : LedgerError

abbrev pub Table : Type 0
Table = List OrderRow

-- `get_order_by_client_id`
unfoldable pub find_order : ℕ → Table → Option OrderRow
find_order id [] = none
find_order id (row ∷ rest) = if row.client_order_id == id then some row else find_order id rest

-- `UPDATE orders ... WHERE client_order_id = ?`
unfoldable pub put_order : OrderRow → Table → Table
put_order new [] = []
put_order new (row ∷ rest) =
    if row.client_order_id == new.client_order_id then new ∷ rest else row ∷ put_order new rest

-- `reserve_order`: `INSERT OR IGNORE` on the unique client id, and whether a row was inserted
abbrev insert_if_absent : Option OrderRow → OrderRow → Table → Table × Bool
insert_if_absent (some old) new table = (table, false)
insert_if_absent none new table = (table ++ new ∷ [], true)

unfoldable pub reserve_order : OrderRow → Table → Table × Bool
reserve_order new table = insert_if_absent (find_order new.client_order_id table) new table

-- the arguments of `update_order`; `none` leaves the column as it is
pub record Update : Type 0 where
  pub status : OrderStatus
  pub broker_order_id : Option ℕ
  pub filled_qty : Option ℕ
  pub average_fill_price : Option Decimal

abbrev pub or_old {ℓ} : {A : Type ℓ} → Option A → A → A
or_old none old = old
or_old (some new) old = new

abbrev pub or_keep {ℓ} : {A : Type ℓ} → Option A → Option A → Option A
or_keep none old = old
or_keep (some new) old = some new

abbrev not_positive : Option Decimal → Bool
not_positive none = false
not_positive (some p) = leq p (of_ℕ 0)

-- the checks on a given cumulative fill
abbrev pub check_fill : Option ℕ → Option Decimal → OrderRow → Result LedgerError (Unit {0})
check_fill none price row = ok tt
check_fill (some n) price row = do
  raise_if (ltb n row.filled_qty) fill_shrinks
  raise_if (ltb row.qty n) fill_exceeds
  raise_if (ltb 0 n && not_positive price) bad_fill_price
  ok tt

unfoldable pub updated_row : Update → OrderRow → OrderRow
updated_row u row = record row {
  status = u.status;
  broker_order_id = or_keep u.broker_order_id row.broker_order_id;
  filled_qty = or_old u.filled_qty row.filled_qty;
  average_fill_price = or_keep u.average_fill_price row.average_fill_price;
}

-- the body of `update_order` on the row that it read
unfoldable pub update_row : Update → OrderRow → Result LedgerError OrderRow
update_row u row = do
  raise_if (is_terminal row.status && not (same_status u.status row.status)) terminal_reverted
  check_fill u.filled_qty u.average_fill_price row
  ok (updated_row u row)

abbrev pub or_missing : Option OrderRow → Result LedgerError OrderRow
or_missing none = raise missing_order
or_missing (some row) = ok row

-- `update_order`: a raise rolls the transaction back
unfoldable pub update_order : ℕ → Update → Table → Result LedgerError Table
update_order id u table = do
  raise_if (not (is_supported u.status)) unsupported_status
  row ← or_missing (find_order id table)
  new ← update_row u row
  ok (put_order new table)

abbrev pub apply_once : Option OrderRow → Table → Table × Bool
apply_once none table = (table, false)
apply_once (some row) table =
    if row.applied then (table, false) else (put_order (record row { applied = true }) table, true)

-- `mark_order_applied`, and whether it was this call that applied the order
unfoldable pub mark_order_applied : ℕ → Table → Table × Bool
mark_order_applied id table = apply_once (find_order id table) table
