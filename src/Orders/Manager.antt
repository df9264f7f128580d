-- ===== src/Orders/Manager.antt =====
-- application/order_manager.py: the checks before an order is submitted. The fallible parts are `Result`s, and a
-- raise still leaves the ledger writes that came before it, so that `submit` returns both.
-- What is not this file's is given with each call: the broker's replies and buying power, the clock
-- and what other threads have written by the time the buy lock is held.
use jh_holdings.Prelude.{
  ℕ, String, Option, none, some, List, Bool, not, ◌&&◌, ◌||◌, if◌then◌else◌, any, Result, ok, raise,
  ◌>>◌, raise_if, str_eq,
}
use jh_holdings.Decimal.{Decimal, of_ℕ, ratio, leq, less, same}
use jh_holdings.Core.Enums.{PositionState, safe_mode, is_state}
use jh_holdings.Core.Execution.{floor_ticks}
use jh_holdings.Orders.Ledger.{Table, Side, buy, sell, LedgerError}
use jh_holdings.Orders.System.{System, Number, text_is}
use jh_holdings.Orders.Requests.{OrderRequest, OrderType, limit, market, other_type, OrderReceipt}
use jh_holdings.Orders.Books.{Account, Books, CashError}
use jh_holdings.Orders.Guard.{GuardError, require_live_auto_buy_contract}

pub data SubmitError : Type 0 where
  bad_sell_price halt_corrupt not_live not_commissioned halted safe_mode_on : SubmitError
  no_limit_price no_buying_power not_reserved bad_receipt toss_error broker_error : SubmitError
  guard_error : GuardError → SubmitError
  cash_error : CashError → SubmitError
  ledger_error : LedgerError → SubmitError

-- what a broker call comes to: a receipt, a `TossApiError` with its `retryable`, or another raise
pub data Reply : Type 0 where
  receipt : OrderReceipt → Reply
  toss : (retryable : Bool) → Reply
  failed : Reply

pub record Settings : Type 0 where
  pub live : Bool
  pub live_allowed : Bool
  pub auto_marked : Bool
  pub enabled_symbols : List String
  pub account : Account

-- what the checks of a buy read, at one moment
pub record Readings : Type 0 where
  pub system : System
  pub position_state : String → PositionState
  pub regular : Bool

-- one call of `submit`: the readings before the reservation and at the lock, and the replies
pub record Call : Type 0 where
  pub before : Readings
  pub at_lock : Readings
  pub buying_power : Option Decimal
  pub order_reply : Reply
  pub place_reply : Reply
  pub now : ℕ

-- the books, and the requests that were handed to the broker, the latest first
pub record Desk : Type 0 where
  pub books : Books
  pub posted : List OrderRequest

abbrev pub Outcome : Type 0
Outcome = Desk × Result SubmitError OrderReceipt

abbrev pub with_orders : Desk → Table → Desk
with_orders d t = record { books = record d.books { orders = t }; posted = d.posted }

-- `_buy_is_halted`
unfoldable pub buy_is_halted : (live : Bool) → System → Result SubmitError Bool
buy_is_halted live system =
    let value = system "operator_buy_halt" in
    if live && not (text_is value "0" || text_is value "1")
    then raise halt_corrupt
    else ok (text_is value "1")

-- `_require_commissioned_live_ledger`
unfoldable pub require_commissioned : Settings → System → Result SubmitError (Unit {0})
require_commissioned s system = do
  raise_if (s.live && not s.live_allowed) not_live
  raise_if (s.live && not (text_is (system "live_commissioned") "1")) not_commissioned
  ok tt

abbrev pub guarded : Result GuardError (Unit {0}) → Result SubmitError (Unit {0})
guarded (ok u) = ok u
guarded (raise e) = raise (guard_error e)

-- `_require_live_auto_contract`
unfoldable pub require_live_auto :
    Settings → (String → Number) → Readings → (final : Bool) → Result SubmitError (Unit {0})
require_live_auto s number r final =
    let checked =
      guarded (require_live_auto_buy_contract number s.auto_marked r.system r.regular final) in
    if s.live then checked else ok tt

-- `_buy_is_safe_mode_blocked`
unfoldable pub safe_mode_blocked : Settings → Readings → String → Bool
safe_mode_blocked s r symbol =
    text_is (r.system "v322_portfolio_safe_mode") "1"
    || (any (λ name. str_eq name symbol) s.enabled_symbols
        && is_state (r.position_state symbol) safe_mode)

-- `_normalize_sell_limit_request`
unfoldable pub tick_of : Decimal → Decimal
tick_of price = if less price (of_ℕ 1) then ratio 1 10_000 else ratio 1 100

unfoldable pub normalize_price : OrderRequest → Decimal → Result SubmitError OrderRequest
normalize_price request price = do
  raise_if (leq price (of_ℕ 0)) bad_sell_price
  let normalized = floor_ticks price (tick_of price)
  raise_if (leq normalized (of_ℕ 0)) bad_sell_price
  if same normalized price then ok request else ok (record request { price = some normalized })

abbrev pub normalize_by :
    Side → OrderType → Option Decimal → OrderRequest → Result SubmitError OrderRequest
normalize_by buy _ price request = ok request
normalize_by sell market price request = ok request
normalize_by sell other_type price request = ok request
normalize_by sell limit none request = ok request
normalize_by sell limit (some price) request = normalize_price request price

unfoldable pub normalize_sell_limit : OrderRequest → Result SubmitError OrderRequest
normalize_sell_limit request = normalize_by request.side request.order_type request.price request
