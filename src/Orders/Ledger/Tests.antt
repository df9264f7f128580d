-- ===== src/Orders/Ledger/Tests.antt =====
-- The ledger on a table of one order.
use jh_holdings.Prelude.{◌≡◌, refl, none, some, [], ◌∷◌, true, false}
use jh_holdings.Decimal.{of_ℕ}
use jh_holdings.Core.Enums.{entry_1}
use jh_holdings.Orders.Ledger.{
  OrderRow, Table, buy, created, partial_filled, pending, filled, Update, find_order, put_order,
  mark_order_applied,
}
use jh_holdings.Orders.Ledger.History.{
  reserve, update, mark_applied, write_all, Kept, write_all-Kept, mark_order_applied-once,
}

abbrev order_7 : OrderRow
order_7 = record {
  client_order_id = 7;
  symbol = "TQQQ";
  side = buy;
  price = some (of_ℕ 97);
  qty = 10;
  purpose = entry_1;
  status = created;
  broker_order_id = none;
  filled_qty = 0;
  average_fill_price = none;
  applied = false;
  created_at = 100;
  signal_id = none;
}

abbrev table_7 : Table
table_7 = order_7 ∷ []

abbrev half_filled : Update
half_filled = record {
  status = partial_filled;
  broker_order_id = some 70;
  filled_qty = some 5;
  average_fill_price = some (of_ℕ 97);
}

abbrev all_filled : Update
all_filled = record half_filled { status = filled; filled_qty = some 10 }

abbrev back_to_pending : Update
back_to_pending = record half_filled { status = pending; filled_qty = some 2 }

found_7 : find_order 7 table_7 ≡ some order_7
unfolding find_order
found_7 = refl

write_all-Kept_example : Kept 7 order_7 (
    write_all
      (update 7 half_filled ∷ update 7 all_filled ∷ update 7 back_to_pending ∷ mark_applied 7 ∷ [])
      table_7)
write_all-Kept_example =
    write_all-Kept
      (update 7 half_filled ∷ update 7 all_filled ∷ update 7 back_to_pending ∷ mark_applied 7 ∷ [])
      table_7 7 order_7 found_7

applied_7 : (mark_order_applied 7 table_7).1 ≡ true
unfolding mark_order_applied find_order put_order
applied_7 = refl

mark_order_applied-once_example :
    (mark_order_applied 7
      (write_all (update 7 all_filled ∷ reserve order_7 ∷ []) (mark_order_applied 7 table_7).0)).1
    ≡ false
mark_order_applied-once_example =
    mark_order_applied-once (update 7 all_filled ∷ reserve order_7 ∷ []) table_7 7 applied_7
