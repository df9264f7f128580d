-- ===== src/Positions/Tests.antt =====
-- A buy and a sale on a sample book.
use jh_holdings.Prelude.{◌≤◌, ◌<◌, ◌≡◌, ◌⊎◌, refl, none, some, [], ◌∷◌, true, false, arith, raise}
use jh_holdings.Decimal.{of_ℕ, ratio, ◌⊕◌, ◌⊗◌, divide, leq, less}
use jh_holdings.Core.Enums.{
  waiting_1st_fill, holding_1st, entry_1, tp1, DecisionType, PositionState-discrete,
}
use jh_holdings.Core.Samples.{settings, position_in}
use jh_holdings.Orders.Ledger.{OrderRow, Side, filled, partial_filled, find_order}
use jh_holdings.Store.Signals.{SignalRow, SignalStatus, get_signal}
use jh_holdings.Store.Positions.{PositionRow, find_position}
use jh_holdings.Store.Plans.{TpPlan, first, active_tp_plan}
use jh_holdings.Positions.Book.{Book, fill_shrinks}
use jh_holdings.Positions.Buys.{fill_states, average_after, apply_buy_fill}
use jh_holdings.Positions.BuyRuns.{BuyDone, apply_buy_fill-total}
use jh_holdings.Positions.Sells.{leg_of, leg_filled, apply_sell_fill}
use jh_holdings.Positions.Balance.{Balanced, SaleDone}
use jh_holdings.Positions.SellRuns.{apply_sell_fill-outcome}

abbrev sale_order : OrderRow
sale_order = record {
  client_order_id = 2;
  symbol = "TQQQ";
  side = Side.sell;
  price = some (of_ℕ 104);
  qty = 24;
  purpose = tp1;
  status = partial_filled;
  broker_order_id = some 20;
  filled_qty = 10;
  average_fill_price = some (of_ℕ 104);
  applied = false;
  created_at = 1;
  signal_id = none;
}

abbrev plan : TpPlan
plan = record {
  tp_plan_id = 1;
  cycle_id = some "TQQQ-1";
  symbol = "TQQQ";
  source_event = entry_1;
  avg_price = of_ℕ 100;
  atr_pct = ratio 2 100;
  tp1_price = of_ℕ 104;
  tp1_target_qty = 24;
  tp1_filled_qty = 0;
  tp2_price = of_ℕ 110;
  tp2_target_qty = 56;
  tp2_filled_qty = 0;
  revision = 0;
  active = true;
}

abbrev held_row : PositionRow
held_row = record { snapshot = position_in holding_1st (of_ℕ 8_000); tp_plan_id = some 1 }

abbrev sale_book : Book
sale_book = record {
  orders = sale_order ∷ [];
  signals = [];
  ledger = record { positions = held_row ∷ []; history = [] };
  plans = plan ∷ [];
  completed = [];
}

abbrev balanced : Balanced "TQQQ" sale_book
unfolding find_position active_tp_plan
balanced = record {
  row = held_row;
  plan = plan;
  held = refl;
  planned = refl;
  balance = refl;
  first_le = omega arith;
  second_le = omega arith;
}

apply_sell_fill-outcome_example :
    ((0 ≤ leg_filled first plan sale_order)
      × SaleDone "TQQQ" first plan held_row.snapshot
          (leg_filled first plan sale_order)
          (apply_sell_fill settings 5 2 sale_book))
    ⊎ ((leg_filled first plan sale_order < 0)
        × (apply_sell_fill settings 5 2 sale_book ≡ (sale_book, raise fill_shrinks)))
unfolding find_order leg_of balanced find_position active_tp_plan
apply_sell_fill-outcome_example =
    apply_sell_fill-outcome settings 5 2 sale_order first sale_book balanced refl refl refl refl

abbrev buy_order : OrderRow
buy_order = record sale_order {
  side = Side.buy;
  purpose = entry_1;
  status = filled;
  qty = 80;
  filled_qty = 80;
  average_fill_price = some (of_ℕ 100);
  signal_id = some 7;
}

abbrev entry_signal : SignalRow
entry_signal = record {
  signal_id = 7;
  key = record {
    symbol = "TQQQ";
    trade_date = 739_000;
    version = 3;
    kind = DecisionType.first_entry_candidate;
  };
  target_stage = some 1;
  signal_close = of_ℕ 100;
  atr_pct = ratio 2 100;
  max_chase_price = of_ℕ 105;
  planned_budget = of_ℕ 8_000;
  cycle_exposure_cap = of_ℕ 20_000;
  valid_until = 9;
  status = SignalStatus.active;
  processed = false;
}

abbrev waiting_row : PositionRow
waiting_row = record {
  snapshot = record (position_in waiting_1st_fill (of_ℕ 0)) {
    quantity = 0;
    average_price = of_ℕ 0;
  };
  tp_plan_id = none;
}

abbrev buy_book : Book
buy_book = record sale_book {
  orders = buy_order ∷ [];
  signals = entry_signal ∷ [];
  ledger = record { positions = waiting_row ∷ []; history = [] };
  plans = [];
}

apply_buy_fill-total_example :
    BuyDone buy_order entry_signal waiting_row.snapshot
      (of_ℕ 100)
      (apply_buy_fill settings (ratio 2 100) "JDSS-TQQQ-1" 2 buy_book)
unfolding find_order get_signal find_position fill_states PositionState-discrete less leq
    average_after divide ◌⊕◌ ◌⊗◌
apply_buy_fill-total_example =
    apply_buy_fill-total settings (ratio 2 100) "JDSS-TQQQ-1" 2 7 buy_book buy_order (of_ℕ 100)
      entry_signal waiting_row (waiting_1st_fill, holding_1st) refl refl refl refl refl refl refl
      refl refl refl
