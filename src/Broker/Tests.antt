-- ===== src/Broker/Tests.antt =====
-- The dry-run broker on sample calls.
use jh_holdings.Prelude.{ℕ, ◌≡◌, refl, none, some, List, [], ◌∷◌, Result, ok, raise}
use jh_holdings.Decimal.{of_ℕ, ◌⊕◌, ◌⊖◌, ◌⊗◌, divide, leq, less}
use jh_holdings.Core.Enums.{entry_1}
use jh_holdings.Orders.Ledger.{Side, filled}
use jh_holdings.Orders.Requests.{OrderRequest, limit}
use jh_holdings.Broker.{DryRunBroker, find_price, find_client, fillable, enter, place_order}
use jh_holdings.Broker.Accounts.{
  DryOrder, DryError, find_holding, put_holding, notional, traded, apply_fill,
}
use jh_holdings.Broker.Laws.Runs.{
  Agrees, Call, order_placed, price_set, orders_filled, order_canceled, all_called,
  all_called-Agrees,
}
use jh_holdings.Broker.Once.{place_order-again}

abbrev request_at : ℕ → OrderRequest
request_at price = record {
  client_order_id = 3;
  symbol = "TQQQ";
  side = Side.buy;
  order_type = limit;
  quantity = 5;
  price = some (of_ℕ price);
  purpose = entry_1;
  signal_id = none;
}

abbrev broker : DryRunBroker
broker = record {
  prices = ("TQQQ", of_ℕ 100) ∷ [];
  account = record { buying_power = of_ℕ 1_000_000; holdings = [] };
  orders = [];
  sequence = 0;
}

abbrev calls : List Call
calls =
    order_placed (request_at 90)
    ∷ price_set "TQQQ" (of_ℕ 80)
    ∷ orders_filled "TQQQ"
    ∷ order_canceled 1
    ∷ []

all_called-Agrees_example :
    Agrees "TQQQ" (all_called calls broker).orders (all_called calls broker).account
unfolding find_holding
all_called-Agrees_example = all_called-Agrees "TQQQ" calls broker refl

abbrev answered : Result DryError DryOrder → List DryOrder
answered (ok o) = o ∷ []
answered (raise e) = []

abbrev first_or : List DryOrder → DryOrder
first_or (o ∷ rest) = o
first_or [] = record {
  order_id = 0;
  client_order_id = 0;
  symbol = "";
  side = Side.buy;
  order_type = limit;
  status = filled;
  price = none;
  quantity = 0;
  filled_quantity = 0;
  average_filled_price = none;
  filled_amount = none;
  applied_quantity = 0;
  applied_amount = of_ℕ 0;
}

abbrev answer : DryOrder
answer = first_or (answered (place_order (request_at 100) broker).1)

place_order-again_example :
    place_order (request_at 120) (place_order (request_at 100) broker).0
    ≡ ((place_order (request_at 100) broker).0, ok answer)
unfolding find_price find_client fillable enter place_order apply_fill notional traded find_holding
    put_holding less leq ◌⊕◌ ◌⊖◌ ◌⊗◌ divide
place_order-again_example =
    place_order-again (request_at 100) (request_at 120) broker answer refl refl
