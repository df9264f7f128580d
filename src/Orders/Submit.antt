-- ===== src/Orders/Submit.antt =====
-- application/order_manager.py: `submit` and `refresh_order`.
mod Replies
pub mod Effects
pub mod Reserved
pub mod Once
pub mod Boundary
use jh_holdings.Prelude.{
  ℕ, String, Option, none, some, List, ◌∷◌, Bool, true, false, not, if◌then◌else◌, Result, ok,
  raise, ◌>>=◌, ◌>>◌, raise_if,
}
use jh_holdings.Orders.Ledger.{
  OrderRow, Table, unknown, Side, buy, sell, find_order, reserve_order, missing_order,
}
use jh_holdings.Orders.System.{Number}
use jh_holdings.Orders.Requests.{OrderRequest}
use jh_holdings.Orders.Books.{Books, CashError}
use jh_holdings.Orders.Cash.{reserve_buy_order, new_row}
use jh_holdings.Orders.Manager.{
  SubmitError, halted, safe_mode_on, no_limit_price, no_buying_power, not_reserved, toss_error,
  broker_error, cash_error, ledger_error, Reply, receipt, toss, failed, Settings, Call, Desk,
  Outcome, with_orders, buy_is_halted, require_commissioned, require_live_auto, safe_mode_blocked,
  normalize_sell_limit,
}
unfoldable pub use Replies.*

abbrev pub post : OrderRequest → Desk → Desk
post request d = record { books = d.books; posted = request ∷ d.posted }

abbrev pub cash_result {ℓ} : {A : Type ℓ} → Result CashError A → Result SubmitError A
cash_result (ok a) = ok a
cash_result (raise e) = raise (cash_error e)

abbrev pub given {ℓ} : {A : Type ℓ} → Option A → SubmitError → Result SubmitError A
given none e = raise e
given (some a) e = ok a

-- the checks and the reservation of a BUY
unfoldable pub reserve_buy :
    Settings
    → (String → Number)
    → (String → ℕ → Bool)
    → Call
    → OrderRequest
    → Books
    → Result SubmitError (Books × Bool)
reserve_buy s number not_before call request books = do
  stopped ← buy_is_halted s.live call.before.system
  raise_if stopped halted
  raise_if (safe_mode_blocked s call.before request.symbol) safe_mode_on
  require_live_auto s number call.before false
  price ← given request.price no_limit_price
  power ← given call.buying_power no_buying_power
  cash_result (
      reserve_buy_order s.account number not_before power call.now request price
        (record books { system = call.before.system }))

abbrev pub reserve_by :
    Side
    → Settings
    → (String → Number)
    → (String → ℕ → Bool)
    → Call
    → OrderRequest
    → Books
    → Result SubmitError (Table × Bool)
reserve_by buy s number not_before call request books = do
  (reserved, inserted) ← reserve_buy s number not_before call request books
  ok (reserved.orders, inserted)
reserve_by sell s number not_before call request books =
    ok (reserve_order (new_row request call.now) books.orders)

unfoldable pub reserve :
    Settings
    → (String → Number)
    → (String → ℕ → Bool)
    → Call
    → OrderRequest
    → Books
    → Result SubmitError Table
reserve s number not_before call request books = do
  require_commissioned s call.before.system
  (orders, inserted) ← reserve_by request.side s number not_before call request books
  raise_if (not inserted) not_reserved
  ok orders

-- the last check of a BUY under the lock, and the posting
unfoldable pub place : Settings → (String → Number) → Call → OrderRequest → Desk → Outcome
place s number call request d = elim (require_live_auto s number call.at_lock true) [
  | ok u ↦ settle call.place_reply request (post request d)
  | raise e ↦ on_exception request.client_order_id e d
]

unfoldable pub send_unhalted : Settings → (String → Number) → Call → OrderRequest → Desk → Outcome
send_unhalted s number call request d =
    let placed = place s number call request d in
    if safe_mode_blocked s call.at_lock request.symbol
    then reject request.client_order_id safe_mode_on d
    else placed

-- the checks of a BUY under the lock
unfoldable pub send_buy : Settings → (String → Number) → Call → OrderRequest → Desk → Outcome
send_buy s number call request d =
    let unhalted = send_unhalted s number call request d in
    elim (buy_is_halted s.live call.at_lock.system) [
      | ok stopped ↦ if stopped then reject request.client_order_id halted d else unhalted
      | raise e ↦ on_exception request.client_order_id e d
    ]

abbrev pub send_by : Side → Settings → (String → Number) → Call → OrderRequest → Desk → Outcome
send_by buy s number call request d = send_buy s number call request d
send_by sell s number call request d = settle call.place_reply request (post request d)

unfoldable pub send : Settings → (String → Number) → Call → OrderRequest → Desk → Outcome
send s number call request d = send_by request.side s number call request d

-- `submit` on a request whose price is normalized
unfoldable pub submit_normalized :
    Settings → (String → Number) → (String → ℕ → Bool) → Call → OrderRequest → Desk → Outcome
submit_normalized s number not_before call request d =
    elim (find_order request.client_order_id d.books.orders) [
      | some row ↦ resubmit call.order_reply request row d
      | none ↦ elim (reserve s number not_before call request d.books) [
        | ok t ↦ send s number call request (with_orders d t)
        | raise e ↦ (d, raise e)
      ]
    ]

unfoldable pub submit :
    Settings → (String → Number) → (String → ℕ → Bool) → Call → OrderRequest → Desk → Outcome
submit s number not_before call request d = elim (normalize_sell_limit request) [
  | ok normalized ↦ submit_normalized s number not_before call normalized d
  | raise e ↦ (d, raise e)
]

-- `refresh_order`, once its row and the broker's reply are there
unfoldable pub refresh_row : Reply → OrderRow → Desk → Outcome
refresh_row reply row d =
    let id = row.client_order_id in
    elim reply [
      | receipt r ↦ elim (validate_receipt r id row.symbol row.side row.qty) [
        | ok u ↦ update_then id (record (receipt_update r) { broker_order_id = none }) (ok r) d
        | raise e ↦ update_then id (status_update unknown) (raise e) d
      ]
      | toss retryable ↦ (d, raise toss_error)
      | failed ↦ (d, raise broker_error)
    ]

-- `refresh_order`: a `KeyError` without a row or without a broker id
unfoldable pub refresh_order : Reply → ℕ → Desk → Outcome
refresh_order reply id d = elim (find_order id d.books.orders) [
  | none ↦ (d, raise (ledger_error missing_order))
  | some row ↦
      let refreshed = refresh_row reply row d in
      if is_absent row.broker_order_id then (d, raise (ledger_error missing_order)) else refreshed
]
