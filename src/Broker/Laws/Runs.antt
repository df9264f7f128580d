-- ===== src/Broker/Laws/Runs.antt =====
-- The broker's books after any sequence of its calls.
use jh_holdings.Prelude.{
  ℕ, ◌+◌, ◌≡◌, refl, String, Option, none, some, List, [], ◌∷◌, ◌++◌, Bool, true, false, not, ◌&&◌,
  leb, ◌==◌, arith, if◌then◌else◌, str_eq, Result, ok, raise,
}
use jh_holdings.Decimal.{Decimal}
use jh_holdings.Orders.Ledger.{canceled, filled}
use jh_holdings.Orders.Requests.{OrderRequest}
use jh_holdings.Broker.{
  DryRunBroker, find_price, set_price, find_client, fillable, new_order, booked, enter, entered,
  placed, place_order, cancel_orders, canceled_if, cancel_order, find_id, fill_at, fill_open_orders,
}
use jh_holdings.Broker.Accounts.{DryOrder, Account, DryError, apply_fill}
use jh_holdings.Broker.Fills.{
  is_waiting, reaches, filled_order, or_unapplied, fill_remaining, fill_if, fill_one, go_on,
  fill_orders,
}
use jh_holdings.Broker.Laws.{bought, sold, all_bought, all_sold, held, apply_fill-held}

-- What is held of a symbol, and what the orders have sold of it, is what they have bought.
abbrev pub Agrees : String → List DryOrder → Account → Type 0
Agrees s orders a = held s a + all_sold s orders ≡ all_bought s orders

-- what a call leaves of an order and the account, against what it found
abbrev Moved : String → DryOrder → Account → DryOrder → Account → Type 0
Moved s o a o' a' = held s a' + (sold s o' + bought s o) ≡ held s a + (sold s o + bought s o')

or_unapplied-Moved :
    (s : String) (o : DryOrder) (a : Account) (r : Result DryError (DryOrder × Account))
    → apply_fill o a ≡ r
    → Moved s o a (or_unapplied r o a).0 (or_unapplied r o a).1
or_unapplied-Moved s o a (ok (o', a')) h = apply_fill-held o o' a a' s h
or_unapplied-Moved s o a (raise e) h = refl

fill_remaining-Moved :
    (s : String) (o : DryOrder) (price : Decimal) (a : Account)
    → Moved s o a (fill_remaining o price a).0 (fill_remaining o price a).1
unfolding fill_remaining filled_order
fill_remaining-Moved s o price a =
    by_tests (not (is_waiting o.status)) (leb o.quantity o.filled_quantity)
      (or_unapplied-Moved s (filled_order o price) a (apply_fill (filled_order o price) a) refl)
  where
    rest : DryOrder × Account × Option DryError
    rest = or_unapplied (apply_fill (filled_order o price) a) (filled_order o price) a

    full : DryOrder × Account × Option DryError
    full = (record o { status = filled }, a, none)

    by_tests :
        (t u : Bool)
        → Moved s (filled_order o price) a rest.0 rest.1
        → Moved s o a
            (if t then (o, a, none) else if u then full else rest).0
            (if t then (o, a, none) else if u then full else rest).1
    by_tests true u m = refl
    by_tests false true m = refl
    by_tests false false m = m

if-Moved :
    (s : String) (o : DryOrder) (a : Account) (b : Bool)
    (run : DryOrder × Account × Option DryError)
    → Moved s o a run.0 run.1
    → Moved s o a (if b then run else (o, a, none)).0 (if b then run else (o, a, none)).1
if-Moved s o a true run m = m
if-Moved s o a false run m = refl

fill_if-Moved :
    (s : String) (price : Option Decimal) (o : DryOrder) (current : Decimal) (a : Account)
    → Moved s o a (fill_if price o current a).0 (fill_if price o current a).1
fill_if-Moved s none o current a = refl
fill_if-Moved s (some price) o current a =
    if-Moved s o a (reaches o.side current price) (fill_remaining o current a)
      (fill_remaining-Moved s o current a)

fill_one-Moved :
    (s symbol : String) (current : Decimal) (o : DryOrder) (a : Account)
    → Moved s o a (fill_one symbol current o a).0 (fill_one symbol current o a).1
unfolding fill_one
fill_one-Moved s symbol current o a =
    if-Moved s o a (str_eq o.symbol symbol && is_waiting o.status) (fill_if o.price o current a)
      (fill_if-Moved s o.price o current a)

-- the same of a list of orders
abbrev AllMoved : String → List DryOrder → Account → List DryOrder → Account → Type 0
AllMoved s os a os' a' =
    held s a' + (all_sold s os' + all_bought s os) ≡ held s a + (all_sold s os + all_bought s os')

go_on-AllMoved :
    (s : String) (o : DryOrder) (rest : List DryOrder) (a : Account)
    (one : DryOrder × Account × Option DryError)
    (later : Account → List DryOrder × Account × Option DryError)
    → Moved s o a one.0 one.1
    → ((a' : Account) → AllMoved s rest a' (later a').0 (later a').1)
    → AllMoved s (o ∷ rest) a (go_on one rest later).0 (go_on one rest later).1
go_on-AllMoved s o rest a (o', a', none) later m k = omega (arith, m, k a')
go_on-AllMoved s o rest a (o', a', some e) later m k = omega (arith, m)

fill_orders-AllMoved :
    (s symbol : String) (current : Decimal) (os : List DryOrder) (a : Account)
    → AllMoved s os a (fill_orders symbol current os a).0 (fill_orders symbol current os a).1
unfolding fill_orders
fill_orders-AllMoved s symbol current [] a = refl
fill_orders-AllMoved s symbol current (o ∷ rest) a =
    go_on-AllMoved s o rest a (fill_one symbol current o a) (fill_orders symbol current rest)
      (fill_one-Moved s symbol current o a) (λ a'. fill_orders-AllMoved s symbol current rest a')

all-append :
    (s : String) (os : List DryOrder) (o : DryOrder)
    → (all_sold s (os ++ o ∷ []) ≡ all_sold s os + sold s o)
      × (all_bought s (os ++ o ∷ []) ≡ all_bought s os + bought s o)
all-append s [] o = (omega arith, omega arith)
all-append s (x ∷ os) o =
    (omega (arith, (all-append s os o).0), omega (arith, (all-append s os o).1))

cancel_orders-all :
    (s : String) (id : ℕ) (os : List DryOrder)
    → (all_sold s (cancel_orders id os) ≡ all_sold s os)
      × (all_bought s (cancel_orders id os) ≡ all_bought s os)
unfolding cancel_orders
cancel_orders-all s id [] = (refl, refl)
cancel_orders-all s id (o ∷ os) =
    by_tests (o.order_id == id) (is_waiting o.status) (cancel_orders-all s id os)
  where
    here : List DryOrder
    here = record o { status = canceled } ∷ os

    by_tests :
        (t u : Bool)
        → (all_sold s (cancel_orders id os) ≡ all_sold s os)
          × (all_bought s (cancel_orders id os) ≡ all_bought s os)
        → (all_sold s (if t then (if u then here else o ∷ os) else o ∷ cancel_orders id os)
            ≡ all_sold s (o ∷ os))
          × (all_bought s (if t then (if u then here else o ∷ os) else o ∷ cancel_orders id os)
              ≡ all_bought s (o ∷ os))
    by_tests true true ih = (refl, refl)
    by_tests true false ih = (refl, refl)
    by_tests false u ih = (omega (arith, ih.0), omega (arith, ih.1))

-- a call of the broker
pub data Call : Type 0 where
  price_set : String → Decimal → Call
  order_placed : OrderRequest → Call
  order_canceled : ℕ → Call
  orders_filled : String → Call

unfoldable pub called : Call → DryRunBroker → DryRunBroker
called (price_set symbol price) b = set_price symbol price b
called (order_placed request) b = (place_order request b).0
called (order_canceled id) b = (cancel_order id b).0
called (orders_filled symbol) b = (fill_open_orders symbol b).0

unfoldable pub all_called : List Call → DryRunBroker → DryRunBroker
all_called [] b = b
all_called (c ∷ cs) b = all_called cs (called c b)

abbrev BookAgrees : String → DryRunBroker → Type 0
BookAgrees s b = Agrees s b.orders b.account

booked-Agrees :
    (s : String) (o : DryOrder) (b : DryRunBroker) (r : Result DryError (DryOrder × Account))
    → sold s o ≡ 0
    → bought s o ≡ 0
    → ((o' : DryOrder) (a' : Account) → r ≡ ok (o', a') → Moved s o b.account o' a')
    → BookAgrees s b
    → BookAgrees s (booked r o b).0
booked-Agrees s o b (ok (o', a')) z y m h =
    omega (arith, m o' a' refl, (all-append s b.orders o').0, (all-append s b.orders o').1)
booked-Agrees s o b (raise e) z y m h =
    omega (arith, (all-append s b.orders o).0, (all-append s b.orders o).1)

enter-Agrees :
    (s : String) (request : OrderRequest) (current : Decimal) (b : DryRunBroker)
    → BookAgrees s b
    → BookAgrees s (enter request current b).0
unfolding enter
enter-Agrees s request current b h =
    by_test (fillable request current)
      (new_order b.sequence request current (fillable request current)) (ground arith)
      (ground arith)
  where
    by_test :
        (t : Bool) (o : DryOrder)
        → sold s o ≡ 0
        → bought s o ≡ 0
        → BookAgrees s
            (if t then booked (apply_fill o b.account) o b else booked (ok (o, b.account)) o b).0
    by_test true o z y =
        booked-Agrees s o b (apply_fill o b.account) z y
          (λ o' a' e. apply_fill-held o o' b.account a' s e) h
    by_test false o z y = omega (arith, (all-append s b.orders o).0, (all-append s b.orders o).1)

entered-Agrees :
    (s : String) (price : Option Decimal) (request : OrderRequest) (b : DryRunBroker)
    → BookAgrees s b
    → BookAgrees s (entered price request b).0
entered-Agrees s none request b h = h
entered-Agrees s (some current) request b h = enter-Agrees s request current b h

placed-Agrees :
    (s : String) (old : Option DryOrder) (request : OrderRequest) (b : DryRunBroker)
    → BookAgrees s b
    → BookAgrees s (placed old request b).0
placed-Agrees s (some o) request b h = h
placed-Agrees s none request b h =
    entered-Agrees s (find_price request.symbol b.prices) request
      (record b { sequence = b.sequence + 1 }) h

fill_at-Agrees :
    (s : String) (price : Option Decimal) (symbol : String) (b : DryRunBroker)
    → BookAgrees s b
    → BookAgrees s (fill_at price symbol b).0
fill_at-Agrees s none symbol b h = h
fill_at-Agrees s (some current) symbol b h =
    omega (arith, fill_orders-AllMoved s symbol current b.orders b.account)

called-Agrees :
    (s : String) (c : Call) (b : DryRunBroker) → BookAgrees s b → BookAgrees s (called c b)
unfolding called set_price place_order cancel_order fill_open_orders
called-Agrees s (price_set symbol price) b h = h
called-Agrees s (order_placed request) b h =
    placed-Agrees s (find_client request.client_order_id b.orders) request b h
called-Agrees s (order_canceled id) b h = by_order (find_id id b.orders)
  where
    by_order : (o : Option DryOrder) → BookAgrees s (canceled_if o id b).0
    by_order none = h
    by_order (some x) =
        omega (arith, (cancel_orders-all s id b.orders).0, (cancel_orders-all s id b.orders).1)
called-Agrees s (orders_filled symbol) b h =
    fill_at-Agrees s (find_price symbol b.prices) symbol b h

-- Through any sequence of prices, placements, cancellations and fills of the dry-run broker,
-- raising or not, the shares held of a symbol and those that its orders have sold stay what its
-- orders have bought.
pub all_called-Agrees :
    (s : String) (cs : List Call) (b : DryRunBroker)
    → Agrees s b.orders b.account
    → Agrees s (all_called cs b).orders (all_called cs b).account
unfolding all_called
all_called-Agrees s [] b h = h
all_called-Agrees s (c ∷ cs) b h = all_called-Agrees s cs (called c b) (called-Agrees s c b h)
