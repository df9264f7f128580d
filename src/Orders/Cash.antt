-- ===== src/Orders/Cash.antt =====
-- application/managed_account.py: the reservation of a BUY against the managed cash ledger.
pub mod Laws
use jh_holdings.Prelude.{
  ℕ, ◌-◌, String, Option, none, some, List, [], ◌∷◌, Bool, true, false, not, ◌&&◌, ◌||◌, ltb, ◌==◌,
  if◌then◌else◌, Result, ok, raise, ◌>>=◌, ◌>>◌, raise_if,
}
use jh_holdings.Decimal.{Decimal, of_ℕ, ◌⊕◌, ◌⊖◌, ◌⊗◌, leq, less, min, max}
use jh_holdings.Core.Enums.{OrderPurpose, core_buy}
use jh_holdings.Core.Onboarding.{target_quantity}
use jh_holdings.Orders.Ledger.{OrderRow, created, reserve_order}
use jh_holdings.Orders.System.{System, Number, malformed, not_finite, finite, text_is}
use jh_holdings.Orders.Requests.{OrderRequest}
use jh_holdings.Orders.Books.{
  CashError, not_authorized, quarantined, operator_halted, not_running, bad_principal,
  not_a_core_symbol, over_core_target, not_enough_cash, Account, CorePosition, Books, auto_enabled,
  raw_managed_cash, risk_budget_of, managed_cost_basis, reserved_open_buy,
  committed_core_buy_quantity, find_core,
}

-- the tests of a BUY while JH AUTO is enabled
unfoldable pub check_auto : (String → Number) → System → Result CashError (Unit {0})
check_auto number system = do
  raise_if (not (text_is (system "jh_auto_launch_authorized") "1")) not_authorized
  raise_if (not (text_is (system "jh_auto_startup_quarantine") "0")) quarantined
  raise_if (not (text_is (system "jh_auto_operator_halt_latched") "0")) operator_halted
  raise_if (not (text_is (system "jh_auto_state") "RUNNING")) not_running
  positive_principal (system "jh_auto_effective_principal")
  where
    positive : Number → Result CashError (Unit {0})
    positive (finite v) = raise_if (leq v (of_ℕ 0)) bad_principal
    positive _ = raise bad_principal

    positive_principal : Option String → Result CashError (Unit {0})
    positive_principal none = raise bad_principal
    positive_principal (some raw) = positive (number raw)

-- the whole shares that a core position may still buy
unfoldable pub remaining_core_target :
    Account → CorePosition → (budget price : Decimal) → (committed : ℕ) → ℕ
remaining_core_target account core budget price committed =
    let target =
      if core.target_qty == 0 && less (of_ℕ 0) core.target_weight
      then target_quantity budget core.target_weight price account.buy_fee
      else core.target_qty in
    target - core.qty - committed

unfoldable pub check_core_target :
    Account → Books → OrderRequest → (budget price : Decimal) → Result CashError (Unit {0})
check_core_target account books request budget price =
    let committed = committed_core_buy_quantity request.symbol books.applied_fill books.orders in
    let checked : Result CashError (Unit {0}) = elim (find_core request.symbol books.cores) [
      | none ↦ raise not_a_core_symbol
      | some core ↦
          raise_if
            (ltb (remaining_core_target account core budget price committed) request.quantity)
            over_core_target
    ] in
    elim request.purpose [ core_buy ↦ checked | _ ↦ ok tt ]

-- `Decimal(quantity) * price * (1 + buy_fee)`
abbrev pub required : Account → ℕ → Decimal → Decimal
required account quantity price = of_ℕ quantity ⊗ price ⊗ (of_ℕ 1 ⊕ account.buy_fee)

-- `max(0, min(raw_cash - reserved, risk_budget - invested - reserved, broker_available))`
unfoldable pub available :
    (raw_cash reserved risk_budget invested broker_available : Decimal) → Decimal
available raw_cash reserved risk_budget invested broker_available =
    max (of_ℕ 0)
      (min (min (raw_cash ⊖ reserved) (risk_budget ⊖ invested ⊖ reserved)) broker_available)

-- the inserted row, with status CREATED
unfoldable pub new_row : OrderRequest → (now : ℕ) → OrderRow
new_row request now = record {
  client_order_id = request.client_order_id;
  symbol = request.symbol;
  side = request.side;
  price = request.price;
  qty = request.quantity;
  purpose = request.purpose;
  status = created;
  broker_order_id = none;
  filled_qty = 0;
  average_fill_price = none;
  applied = false;
  created_at = now;
  signal_id = request.signal_id;
}

-- `reserve_buy_order_with_managed_cash`, and whether a row was inserted. The price of the request
-- is given apart, as the caller has checked that there is one.
unfoldable pub reserve_buy_order :
    Account
    → (String → Number)
    → (String → ℕ → Bool)
    → (broker_available : Decimal) → (now : ℕ) → OrderRequest
    → (price : Decimal) → Books
    → Result CashError (Books × Bool)
reserve_buy_order account number not_before broker_available now request price books = do
  if auto_enabled books.system then check_auto number books.system else ok tt
  raw_cash ← raw_managed_cash account number not_before books.system books.orders
  risk_budget ← risk_budget_of account number books.system
  check_core_target account books request risk_budget price
  let reserved = reserved_open_buy account books.orders
  let spendable =
      available raw_cash reserved risk_budget (managed_cost_basis account books) broker_available
  raise_if (less spendable (required account request.quantity price)) not_enough_cash
  let (orders, inserted) = reserve_order (new_row request now) books.orders
  ok (record books { orders = orders }, inserted)
