-- ===== src/Broker/Fills.antt =====
-- application/broker.py: `_fill_remaining_order` and the loop of `fill_open_orders`.
use jh_holdings.Prelude.{
  ◌-◌, String, Option, none, some, List, [], ◌∷◌, Bool, true, false, not, ◌&&◌, leb, if◌then◌else◌,
  str_eq, Result, ok, raise,
}
use jh_holdings.Decimal.{Decimal, of_ℕ, ◌⊕◌, ◌⊗◌, divide, leq}
use jh_holdings.Orders.Ledger.{OrderStatus, Side, buy, sell, filled, pending, partial_filled}
use jh_holdings.Broker.Accounts.{DryOrder, Account, DryError, no_limit, average_of, apply_fill}

-- the statuses that a cancel or a fill still changes
abbrev pub is_waiting : OrderStatus → Bool
is_waiting pending = true
is_waiting partial_filled = true
is_waiting _ = false

-- the market meets a limit
abbrev pub reaches : Side → Decimal → Decimal → Bool
reaches buy current price = leq current price
reaches sell current price = leq price current

-- the order with the rest filled at `price`
unfoldable pub filled_order : DryOrder → Decimal → DryOrder
filled_order o price =
    let total =
      average_of o.average_filled_price o.filled_quantity ⊗ of_ℕ o.filled_quantity
      ⊕ price ⊗ of_ℕ (o.quantity - o.filled_quantity) in
    record o {
      status = filled;
      filled_quantity = o.quantity;
      average_filled_price = some (divide total (of_ℕ o.quantity));
      filled_amount = some total;
    }

-- what a call that may raise leaves of the order and the account: the order's own fields are set
-- before its fill is applied
abbrev pub or_unapplied :
    Result DryError (DryOrder × Account) → DryOrder → Account → DryOrder × Account × Option DryError
or_unapplied (ok (o, a)) order account = (o, a, none)
or_unapplied (raise e) order account = (order, account, some e)

unfoldable pub fill_remaining : DryOrder → Decimal → Account → DryOrder × Account × Option DryError
fill_remaining o price a =
    let rest = or_unapplied (apply_fill (filled_order o price) a) (filled_order o price) a in
    if not (is_waiting o.status)
    then (o, a, none)
    else if leb o.quantity o.filled_quantity
    then (record o { status = filled }, a, none)
    else rest

abbrev pub fill_if :
    Option Decimal → DryOrder → Decimal → Account → DryOrder × Account × Option DryError
fill_if none o current a = (o, a, some no_limit)
fill_if (some price) o current a =
    let run = fill_remaining o current a in
    if reaches o.side current price then run else (o, a, none)

-- one round of the loop; an order without a limit has no `Decimal` of its price
unfoldable pub fill_one :
    String → Decimal → DryOrder → Account → DryOrder × Account × Option DryError
fill_one symbol current o a =
    let run = fill_if o.price o current a in
    if str_eq o.symbol symbol && is_waiting o.status then run else (o, a, none)

abbrev pub cons_order :
    DryOrder → List DryOrder × Account × Option DryError → List DryOrder × Account × Option DryError
cons_order o (orders, a, failed) = (o ∷ orders, a, failed)

-- a raise ends the loop
abbrev pub go_on :
    DryOrder × Account × Option DryError
    → List DryOrder
    → (Account → List DryOrder × Account × Option DryError)
    → List DryOrder × Account × Option DryError
go_on (o, a, none) rest later = cons_order o (later a)
go_on (o, a, some e) rest later = (o ∷ rest, a, some e)

unfoldable pub fill_orders :
    String → Decimal → List DryOrder → Account → List DryOrder × Account × Option DryError
fill_orders symbol current [] a = ([], a, none)
fill_orders symbol current (o ∷ rest) a =
    go_on (fill_one symbol current o a) rest (fill_orders symbol current rest)
