-- ===== src/Broker/Accounts.antt =====
-- application/broker.py: the holdings and the buying power of `DryRunBroker`, and `_apply_fill`.
use jh_holdings.Prelude.{
  ℕ, ◌+◌, ◌-◌, String, Option, none, some, List, [], ◌∷◌, ◌||◌, ltb, ◌==◌, if◌then◌else◌, str_eq,
  Result, ok, ◌>>=◌, ◌>>◌, raise_if,
}
use jh_holdings.Decimal.{Decimal, of_ℕ, ◌⊕◌, ◌⊖◌, ◌⊗◌, divide, less}
use jh_holdings.Orders.Ledger.{OrderStatus, Side, buy, sell}
use jh_holdings.Orders.Requests.{OrderType}

pub record DryOrder : Type 0 where
  pub order_id : ℕ
  pub client_order_id : ℕ
  pub symbol : String
  pub side : Side
  pub order_type : OrderType
  pub status : OrderStatus
  pub price : Option Decimal
  pub quantity : ℕ
  pub filled_quantity : ℕ
  pub average_filled_price : Option Decimal
  pub filled_amount : Option Decimal
  pub applied_quantity : ℕ
  pub applied_amount : Decimal

pub record DryHolding : Type 0 where
  pub symbol : String
  pub quantity : ℕ
  pub average_price : Decimal

pub record Account : Type 0 where
  pub buying_power : Decimal
  pub holdings : List DryHolding

pub data DryError : Type 0 where
  no_price no_order fill_shrinks oversold no_limit : DryError

-- `holdings.get(symbol, {"quantity": 0, ...})`
unfoldable pub find_holding : String → List DryHolding → DryHolding
find_holding symbol [] = record { symbol = symbol; quantity = 0; average_price = of_ℕ 0 }
find_holding symbol (h ∷ rest) =
    let later = find_holding symbol rest in if str_eq h.symbol symbol then h else later

-- `holdings[symbol] = ...`
unfoldable pub put_holding : DryHolding → List DryHolding → List DryHolding
put_holding new [] = new ∷ []
put_holding new (h ∷ rest) =
    let later = h ∷ put_holding new rest in if str_eq h.symbol new.symbol then new ∷ rest else later

abbrev amount_or : Option Decimal → Decimal → Decimal
amount_or none default = default
amount_or (some a) default = a

abbrev pub average_of : Option Decimal → ℕ → Decimal
average_of none n = of_ℕ 0
average_of (some p) n = if ltb 0 n then p else of_ℕ 0

-- the cumulative notional of an order's execution
unfoldable pub notional : DryOrder → Decimal
notional o =
    amount_or o.filled_amount
      (average_of o.average_filled_price o.filled_quantity ⊗ of_ℕ o.filled_quantity)

unfoldable pub traded : Side → String → ℕ → Decimal → Account → Result DryError Account
traded buy symbol delta value a =
    let old = find_holding symbol a.holdings in
    ok (record {
      buying_power = a.buying_power ⊖ value;
      holdings =
          put_holding
            (record {
              symbol = symbol;
              quantity = old.quantity + delta;
              average_price =
                  divide (old.average_price ⊗ of_ℕ old.quantity ⊕ value)
                    (of_ℕ (old.quantity + delta));
            })
            a.holdings;
    })
traded sell symbol delta value a =
    let old = find_holding symbol a.holdings in
    raise_if (ltb old.quantity delta) oversold
    >> ok (record {
      buying_power = a.buying_power ⊕ value;
      holdings =
          put_holding
            (record {
              symbol = symbol;
              quantity = old.quantity - delta;
              average_price = if old.quantity - delta == 0 then of_ℕ 0 else old.average_price;
            })
            a.holdings;
    })

abbrev pub applied_order : DryOrder → DryOrder
applied_order o = record o { applied_quantity = o.filled_quantity; applied_amount = notional o }

-- `_apply_fill`: the order and the account after it
unfoldable pub apply_fill : DryOrder → Account → Result DryError (DryOrder × Account)
apply_fill o a =
    let changed =
      traded o.side o.symbol (o.filled_quantity - o.applied_quantity)
        (notional o ⊖ o.applied_amount) a
      >>= λ a'. ok (applied_order o, a') in
    raise_if
      (ltb o.filled_quantity o.applied_quantity || less (notional o ⊖ o.applied_amount) (of_ℕ 0))
      fill_shrinks
    >> (if o.filled_quantity == o.applied_quantity then ok (o, a) else changed)
