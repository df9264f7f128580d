-- ===== src/Orders/Requests.antt =====
-- `OrderRequest` and `OrderReceipt` of core/models.py. `__post_init__` rejects a request of no
-- shares, so that a request in hand has a positive quantity.
use jh_holdings.Prelude.{ℕ, String, Option}
use jh_holdings.Decimal.{Decimal}
use jh_holdings.Core.Enums.{OrderPurpose}
use jh_holdings.Orders.Ledger.{OrderStatus, Side}

pub data OrderType : Type 0 where
  limit market other_type : OrderType

pub record OrderRequest : Type 0 where
  pub client_order_id : ℕ
  pub symbol : String
  pub side : Side
  pub order_type : OrderType
  pub quantity : ℕ
  pub price : Option Decimal
  pub purpose : OrderPurpose
  pub signal_id : Option ℕ

-- the entries of the `raw` dictionary of a receipt that its validation reads; a side is BUY or SELL
pub record RawOrder : Type 0 where
  pub raw_client_id : Option ℕ
  pub raw_symbol : Option String
  pub raw_side : Option Side
  pub raw_quantity : Option Decimal

pub record OrderReceipt : Type 0 where
  pub client_order_id : ℕ
  pub broker_order_id : Option ℕ
  pub status : OrderStatus
  pub quantity : ℕ
  pub filled_quantity : ℕ
  pub average_fill_price : Option Decimal
  pub raw : RawOrder
