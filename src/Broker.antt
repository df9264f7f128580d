-- ===== src/Broker.antt =====
-- application/broker.py: `DryRunBroker`. Order ids are the numbers of its sequence. The texts of a
-- fill are numbers; an amount or an average that is `None` is `none`.
pub mod Accounts
pub mod Fills
pub mod Laws
pub mod Once
mod Tests
use jh_holdings.Prelude.{
  ℕ, zero, suc, ◌+◌, ◌-◌, String, Option, none, some, List, [], ◌∷◌, ◌++◌, Bool, true, false, not,
  ◌&&◌, ◌||◌, leb, ltb, ◌==◌, if◌then◌else◌, str_eq, Result, ok, raise,
}
use jh_holdings.Decimal.{Decimal, of_ℕ, ◌⊗◌, leq}
use jh_holdings.Orders.Ledger.{
  OrderStatus, Side, buy, sell, filled, pending, partial_filled, pending_cancel, pending_replace,
  canceled,
}
use jh_holdings.Orders.Requests.{OrderType, limit, market, OrderRequest}
use jh_holdings.Broker.Accounts.{DryOrder, Account, DryError, no_price, no_order, apply_fill}
use jh_holdings.Broker.Fills.{is_waiting, reaches, fill_orders}

pub record DryRunBroker : Type 0 where
  pub prices : List (String × Decimal)
  pub account : Account
  pub orders : List DryOrder
  pub sequence : ℕ

-- `get_price`
unfoldable pub find_price : String → List (String × Decimal) → Option Decimal
find_price symbol [] = none
find_price symbol ((s, p) ∷ rest) =
    let later = find_price symbol rest in if str_eq s symbol then some p else later

-- `set_price`
unfoldable pub set_price : String → Decimal → DryRunBroker → DryRunBroker
set_price symbol price b = record b { prices = (symbol, price) ∷ b.prices }

unfoldable pub find_client : ℕ → List DryOrder → Option DryOrder
find_client id [] = none
find_client id (o ∷ rest) =
    let later = find_client id rest in if o.client_order_id == id then some o else later

abbrev meets : OrderType → Option Decimal → Side → Decimal → Bool
meets market price side current = true
meets limit none side current = false
meets limit (some p) side current = reaches side current p
meets _ price side current = false

-- `fillable` of a new order
unfoldable pub fillable : OrderRequest → Decimal → Bool
fillable request current = meets request.order_type request.price request.side current

abbrev pub new_order : ℕ → OrderRequest → Decimal → Bool → DryOrder
new_order id request current fill = record {
  order_id = id;
  client_order_id = request.client_order_id;
  symbol = request.symbol;
  side = request.side;
  order_type = request.order_type;
  status = if fill then filled else pending;
  price = request.price;
  quantity = request.quantity;
  filled_quantity = if fill then request.quantity else 0;
  average_filled_price = if fill then some current else none;
  filled_amount = if fill then some (current ⊗ of_ℕ request.quantity) else none;
  applied_quantity = 0;
  applied_amount = of_ℕ 0;
}

-- the new order is in the dictionary before its fill is applied
abbrev pub booked :
    Result DryError (DryOrder × Account)
    → DryOrder
    → DryRunBroker
    → DryRunBroker × Result DryError DryOrder
booked (ok (o, account)) order b =
    (record b { account = account; orders = b.orders ++ o ∷ [] }, ok o)
booked (raise e) order b = (record b { orders = b.orders ++ order ∷ [] }, raise e)

unfoldable pub enter :
    OrderRequest → Decimal → DryRunBroker → DryRunBroker × Result DryError DryOrder
enter request current b =
    let order = new_order b.sequence request current (fillable request current) in
    if fillable request current
    then booked (apply_fill order b.account) order b
    else booked (ok (order, b.account)) order b

abbrev pub entered :
    Option Decimal → OrderRequest → DryRunBroker → DryRunBroker × Result DryError DryOrder
entered none request b = (b, raise no_price)
entered (some current) request b = enter request current b

abbrev pub placed :
    Option DryOrder → OrderRequest → DryRunBroker → DryRunBroker × Result DryError DryOrder
placed (some old) request b = (b, ok old)
placed none request b =
    entered (find_price request.symbol b.prices) request (record b { sequence = b.sequence + 1 })

-- `place_order`, with the order whose receipt it returns
unfoldable pub place_order : OrderRequest → DryRunBroker → DryRunBroker × Result DryError DryOrder
place_order request b = placed (find_client request.client_order_id b.orders) request b

unfoldable pub find_id : ℕ → List DryOrder → Option DryOrder
find_id id [] = none
find_id id (o ∷ rest) = let later = find_id id rest in if o.order_id == id then some o else later

unfoldable pub cancel_orders : ℕ → List DryOrder → List DryOrder
cancel_orders id [] = []
cancel_orders id (o ∷ rest) =
    let later = o ∷ cancel_orders id rest in
    let here = record o { status = canceled } ∷ rest in
    if o.order_id == id then (if is_waiting o.status then here else o ∷ rest) else later

abbrev pub canceled_if : Option DryOrder → ℕ → DryRunBroker → DryRunBroker × Result DryError ℕ
canceled_if none id b = (b, raise no_order)
canceled_if (some o) id b = (record b { orders = cancel_orders id b.orders }, ok id)

-- `cancel_order`
unfoldable pub cancel_order : ℕ → DryRunBroker → DryRunBroker × Result DryError ℕ
cancel_order id b = canceled_if (find_id id b.orders) id b

abbrev pub filled_book :
    List DryOrder × Account × Option DryError → DryRunBroker → DryRunBroker × Option DryError
filled_book (orders, account, failed) b = (record b { orders = orders; account = account }, failed)

abbrev pub fill_at : Option Decimal → String → DryRunBroker → DryRunBroker × Option DryError
fill_at none symbol b = (b, some no_price)
fill_at (some current) symbol b = filled_book (fill_orders symbol current b.orders b.account) b

-- `fill_open_orders`, with the exception that it ends with
unfoldable pub fill_open_orders : String → DryRunBroker → DryRunBroker × Option DryError
fill_open_orders symbol b = fill_at (find_price symbol b.prices) symbol b

abbrev is_open_status : OrderStatus → Bool
is_open_status pending = true
is_open_status partial_filled = true
is_open_status pending_cancel = true
is_open_status pending_replace = true
is_open_status _ = false

abbrev of_symbol : Option String → DryOrder → Bool
of_symbol none o = true
of_symbol (some s) o = str_eq o.symbol s

abbrev take_orders : ℕ → List DryOrder → List DryOrder
take_orders zero orders = []
take_orders (suc n) [] = []
take_orders (suc n) (o ∷ rest) = o ∷ take_orders n rest

abbrev equal_tests : Bool → Bool → Bool
equal_tests true b = b
equal_tests false b = not b

unfoldable pub matching : Bool → Option String → List DryOrder → List DryOrder
matching open_only symbol [] = []
matching open_only symbol (o ∷ rest) =
    let later = matching open_only symbol rest in
    if equal_tests (is_open_status o.status) open_only && of_symbol symbol o
    then o ∷ later
    else later

-- `list_orders`; `open_only` is `status.upper() == "OPEN"`
unfoldable pub list_orders : Bool → Option String → ℕ → DryRunBroker → List DryOrder
unfolding matching
list_orders open_only symbol n b = take_orders n (matching open_only symbol b.orders)
