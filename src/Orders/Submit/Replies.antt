-- ===== src/Orders/Submit/Replies.antt =====
-- application/order_manager.py: what becomes of an order by the reply to a broker call.
use jh_holdings.Prelude.{
  ℕ, String, Option, none, some, Bool, true, false, not, ◌&&◌, ltb, ◌==◌, if◌then◌else◌, Result, ok,
  raise, ◌>>◌, raise_if, str_eq,
}
use jh_holdings.Decimal.{Decimal, of_ℕ, leq, same}
use jh_holdings.Orders.Ledger.{
  OrderRow, OrderStatus, unknown, rejected, is_supported, same_status, Side, buy, sell, find_order,
  Update, update_order,
}
use jh_holdings.Orders.Requests.{OrderRequest, OrderReceipt}
use jh_holdings.Orders.Manager.{
  SubmitError, bad_receipt, toss_error, broker_error, ledger_error, Reply, receipt, toss, failed,
  Desk, Outcome, with_orders,
}

-- `if x is not None and x != expected: raise`
abbrev contradicts {ℓ} : {A : Type ℓ} → (A → Bool) → Option A → Bool
contradicts equal none = false
contradicts equal (some x) = not (equal x)

abbrev pub is_absent {ℓ} : {A : Type ℓ} → Option A → Bool
is_absent none = true
is_absent (some x) = false

abbrev same_side : Side → Side → Bool
same_side buy buy = true
same_side sell sell = true
same_side _ _ = false

abbrev no_positive : Option Decimal → Bool
no_positive none = true
no_positive (some p) = leq p (of_ℕ 0)

-- `_validate_receipt`
unfoldable pub validate_receipt :
    OrderReceipt
    → (id : ℕ) → (symbol : String) → Side
    → (quantity : ℕ) → Result SubmitError (Unit {0})
validate_receipt r id symbol side quantity = do
  raise_if (not (r.client_order_id == id)) bad_receipt
  raise_if (is_absent r.broker_order_id) bad_receipt
  raise_if (not (is_supported r.status)) bad_receipt
  raise_if (not (r.quantity == quantity)) bad_receipt
  raise_if (ltb quantity r.filled_quantity) bad_receipt
  raise_if (ltb 0 r.filled_quantity && no_positive r.average_fill_price) bad_receipt
  raise_if (contradicts (λ n. n == id) r.raw.raw_client_id) bad_receipt
  raise_if (contradicts (λ name. str_eq name symbol) r.raw.raw_symbol) bad_receipt
  raise_if (contradicts (same_side side) r.raw.raw_side) bad_receipt
  raise_if (contradicts (same (of_ℕ quantity)) r.raw.raw_quantity) bad_receipt
  ok tt

-- the arguments of the `update_order` calls: a status alone, and a receipt
abbrev pub status_update : OrderStatus → Update
status_update status = record {
  status = status;
  broker_order_id = none;
  filled_qty = none;
  average_fill_price = none;
}

abbrev pub receipt_update : OrderReceipt → Update
receipt_update r = record {
  status = r.status;
  broker_order_id = r.broker_order_id;
  filled_qty = some r.filled_quantity;
  average_fill_price = r.average_fill_price;
}

-- `update_order`, then the outcome, unless the update itself raises
unfoldable pub update_then : ℕ → Update → Result SubmitError OrderReceipt → Desk → Outcome
update_then id u outcome d = elim (update_order id u d.books.orders) [
  | ok t ↦ (with_orders d t, outcome)
  | raise e ↦ (d, raise (ledger_error e))
]

-- the receipt that is built from the stored row
abbrev pub local_receipt : OrderRow → OrderReceipt
local_receipt row = record {
  client_order_id = row.client_order_id;
  broker_order_id = row.broker_order_id;
  status = row.status;
  quantity = row.qty;
  filled_quantity = row.filled_qty;
  average_fill_price = row.average_fill_price;
  raw = record { raw_client_id = none; raw_symbol = none; raw_side = none; raw_quantity = none };
}

-- the refresh from the broker's reply; an error other than a bad receipt is only logged
unfoldable pub refresh_existing : Reply → OrderRequest → OrderRow → Desk → Outcome
refresh_existing reply request row d =
    let id = request.client_order_id in
    elim reply [
      | receipt r ↦ elim (validate_receipt r id request.symbol request.side request.quantity) [
        | ok u ↦ update_then id (receipt_update r) (ok r) d
        | raise e ↦ update_then id (status_update unknown) (raise bad_receipt) d
      ]
      | toss retryable ↦ (d, ok (local_receipt row))
      | failed ↦ (d, ok (local_receipt row))
    ]

-- the branch of `submit` for an id that the ledger already has
unfoldable pub resubmit : Reply → OrderRequest → OrderRow → Desk → Outcome
resubmit reply request row d =
    let refreshed = refresh_existing reply request row d in
    if is_absent row.broker_order_id then (d, ok (local_receipt row)) else refreshed

-- `except Exception`: an order that is already REJECTED stays so, any other becomes UNKNOWN
abbrev is_rejected : Option OrderRow → Bool
is_rejected none = false
is_rejected (some row) = same_status row.status rejected

unfoldable pub on_exception : ℕ → SubmitError → Desk → Outcome
on_exception id e d =
    let marked = update_then id (status_update unknown) (raise e) d in
    if is_rejected (find_order id d.books.orders) then (d, raise e) else marked

-- a refusal at the lock that first marks the order REJECTED
unfoldable pub reject : ℕ → SubmitError → Desk → Outcome
reject id e d = elim (update_order id (status_update rejected) d.books.orders) [
  | ok t ↦ on_exception id e (with_orders d t)
  | raise x ↦ on_exception id (ledger_error x) d
]

-- the reply to `place_order`, and the handlers of its exceptions
unfoldable pub settle : Reply → OrderRequest → Desk → Outcome
settle reply request d = elim reply [
  | receipt r ↦
      elim (validate_receipt r request.client_order_id request.symbol request.side
        request.quantity) [
          | ok u ↦ update_then request.client_order_id (receipt_update r) (ok r) d
          | raise e ↦ on_exception request.client_order_id bad_receipt d
        ]
  | toss retryable ↦
      update_then request.client_order_id (status_update (if retryable then unknown else rejected))
        (raise toss_error) d
  | failed ↦ on_exception request.client_order_id broker_error d
]
