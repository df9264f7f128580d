-- ===== src/Orders/Tests.antt =====
-- The guards and the submission on a sample account.
use jh_holdings.Prelude.{
  ℕ, ◌≤◌, ◌≡◌, ◌≢◌, refl, String, none, some, List, [], ◌∷◌, Bool, true, false, if◌then◌else◌,
  str_eq, arith, ok,
}
use jh_holdings.Decimal.{
  Decimal, of_ℕ, ratio, ◌⊕◌, ◌⊖◌, ◌⊗◌, leq, less, same, min, max, divide, integral_down,
  quantize_down, ◌≼◌, ◌≺◌,
}
use jh_holdings.Core.Enums.{empty, entry_1, PositionState-discrete}
use jh_holdings.Orders.Ledger.{
  buy, pending, canceled, find_order, put_order, reserve_order, update_order, update_row,
  updated_row, OrderStatus-discrete,
}
use jh_holdings.Orders.Ledger.History.{update}
use jh_holdings.Orders.System.{System, Number, malformed, finite}
use jh_holdings.Orders.Guard.{
  auto_contract_is_present, check_flags, Capital, read_capital, check_capital, check_contract,
  require_live_auto_buy_contract,
}
use jh_holdings.Orders.Guard.Laws.{Holds, require_live_auto_buy_contract-Holds}
use jh_holdings.Orders.Requests.{OrderRequest, limit, OrderReceipt}
use jh_holdings.Orders.Books.{
  Account, Books, effective_initial_capital, apply_cash, cash_from, raw_managed_cash,
  managed_cost_basis, risk_budget_of, hold_back, reserved_from,
}
use jh_holdings.Orders.Equity.{put_equity, next_equity, record_v322_equity, Equity}
use jh_holdings.Orders.Equity.Laws.{IsRecorded, record_v322_equity-IsRecorded}
use jh_holdings.Core.Allocation.Weights.{frozen}
use jh_holdings.Orders.Cash.{
  check_auto, check_core_target, required, available, new_row, reserve_buy_order,
}
use jh_holdings.Orders.Cash.Laws.{IsCovered, reserve_buy_order-IsCovered}
use jh_holdings.Orders.Manager.{
  Settings, Readings, Call, Desk, receipt, buy_is_halted, require_commissioned, require_live_auto,
  safe_mode_blocked, normalize_sell_limit,
}
use jh_holdings.Orders.Submit.{
  validate_receipt, update_then, settle, reserve_buy, reserve, place, send_unhalted, send_buy, send,
  submit_normalized, submit, status_update,
}
use jh_holdings.Orders.Submit.Boundary.{Cleared, submit-Cleared}
use jh_holdings.Orders.Submit.Once.{posts, submitted, written, run, run-posts-once}

-- the texts of a running AUTO ledger
abbrev text_of : List (String × String) → System
text_of [] key = none
text_of ((k, v) ∷ rest) key = let later = text_of rest key in if str_eq k key then some v else later

abbrev running_texts : System
running_texts = text_of (
    ("jh_auto_enabled", "1")
    ∷ ("jh_auto_version", "1.0.0")
    ∷ ("jh_auto_launch_authorized", "1")
    ∷ ("jh_auto_startup_quarantine", "0")
    ∷ ("jh_auto_operator_halt_latched", "0")
    ∷ ("jh_auto_state", "RUNNING")
    ∷ ("jh_auto_base_capital", "20000")
    ∷ ("jh_auto_ratio", "0.50")
    ∷ ("jh_auto_target_principal", "10000.00")
    ∷ ("jh_auto_effective_principal", "10000")
    ∷ ("v322_high_water_equity", "12000")
    ∷ ("v322_risk_budget", "11500")
    ∷ ("operator_buy_halt", "0")
    ∷ ("live_commissioned", "1")
    ∷ [])

-- `Decimal` of the texts above
abbrev sample_number : String → Number
sample_number t =
    if str_eq t "20000"
    then finite (of_ℕ 20_000)
    else if str_eq t "0.50"
    then finite (ratio 50 100)
    else if str_eq t "10000.00"
    then finite (ratio 1_000_000 100)
    else if str_eq t "10000"
    then finite (of_ℕ 10_000)
    else if str_eq t "12000"
    then finite (of_ℕ 12_000)
    else if str_eq t "11500"
    then finite (of_ℕ 11_500)
    else malformed

open_orders : Unit {0}
unfolding ◌⊕◌ ◌⊖◌ ◌⊗◌ leq less same min max divide integral_down quantize_down
    PositionState-discrete find_order put_order reserve_order update_order update_row updated_row
    OrderStatus-discrete auto_contract_is_present check_flags read_capital check_capital
    check_contract require_live_auto_buy_contract effective_initial_capital apply_cash cash_from
    raw_managed_cash managed_cost_basis risk_budget_of hold_back reserved_from check_auto
    check_core_target available new_row reserve_buy_order buy_is_halted require_commissioned
    require_live_auto safe_mode_blocked normalize_sell_limit validate_receipt update_then settle
    reserve_buy reserve place send_unhalted send_buy send submit_normalized submit posts
open_orders = tt

present_run : auto_contract_is_present true running_texts ≡ true
unfolding open_orders
present_run = refl

guard_run : require_live_auto_buy_contract sample_number true running_texts true true ≡ ok tt
unfolding open_orders
guard_run = refl

require_live_auto_buy_contract-Holds_example :
    ((c : Capital) × Holds sample_number running_texts c) × (true ≡ true → true ≡ true)
require_live_auto_buy_contract-Holds_example =
    require_live_auto_buy_contract-Holds sample_number true running_texts true true present_run
      guard_run

abbrev account : Account
account = record {
  initial_capital = of_ℕ 50_000;
  buy_fee = ratio 1 1000;
  sell_fee = ratio 1 1000;
  idle_enabled = false;
}

abbrev empty_books : Books
empty_books = record {
  orders = [];
  system = running_texts;
  position_costs = of_ℕ 1_000 ∷ [];
  cores = [];
  idle = none;
  applied_fill = λ id. 0;
}

abbrev request_7 : OrderRequest
request_7 = record {
  client_order_id = 7;
  symbol = "TQQQ";
  side = buy;
  order_type = limit;
  quantity = 10;
  price = some (of_ℕ 97);
  purpose = entry_1;
  signal_id = some 1;
}

abbrev after_start : String → ℕ → Bool
after_start start t = true

abbrev reserved_books : Books
reserved_books = record empty_books { orders = new_row request_7 100 ∷ [] }

reserve_run :
    reserve_buy_order account sample_number after_start
      (of_ℕ 5_000)
      100
      request_7
      (of_ℕ 97)
      empty_books
    ≡ ok (reserved_books, true)
unfolding open_orders
reserve_run = refl

price_positive : of_ℕ 0 ≺ of_ℕ 97
unfolding open_orders
price_positive = refl

fee_nonneg : of_ℕ 0 ≼ account.buy_fee
unfolding open_orders
fee_nonneg = refl

reserve_buy_order-IsCovered_example :
    IsCovered account sample_number after_start
      (of_ℕ 5_000)
      (required account 10 (of_ℕ 97))
      reserved_books
reserve_buy_order-IsCovered_example =
    reserve_buy_order-IsCovered account sample_number after_start (of_ℕ 5_000) 100 request_7
      (of_ℕ 97) refl refl (omega arith) price_positive fee_nonneg empty_books reserved_books
      reserve_run

abbrev live : Settings
live = record {
  live = true;
  live_allowed = true;
  auto_marked = true;
  enabled_symbols = "TQQQ" ∷ "SOXL" ∷ [];
  account = account;
}

abbrev calm : Readings
calm = record { system = running_texts; position_state = λ symbol. empty; regular = true }

abbrev receipt_7 : OrderReceipt
receipt_7 = record {
  client_order_id = 7;
  broker_order_id = some 70;
  status = pending;
  quantity = 10;
  filled_quantity = 0;
  average_fill_price = none;
  raw = record { raw_client_id = none; raw_symbol = none; raw_side = none; raw_quantity = none };
}

abbrev call_7 : Call
call_7 = record {
  before = calm;
  at_lock = calm;
  buying_power = some (of_ℕ 5_000);
  order_reply = receipt receipt_7;
  place_reply = receipt receipt_7;
  now = 100;
}

abbrev empty_desk : Desk
empty_desk = record { books = empty_books; posted = [] }

posted_run :
    (submit live sample_number after_start call_7 request_7 empty_desk).0.posted ≡ request_7 ∷ []
unfolding open_orders
posted_run = refl

posted_once : (submit live sample_number after_start call_7 request_7 empty_desk).0.posted ≢ []
posted_once e = let both = rw posted_run at e in cc

submit-Cleared_example : Cleared live sample_number calm "TQQQ"
submit-Cleared_example =
    submit-Cleared live sample_number after_start call_7 request_7 empty_desk refl posted_once

run-posts-once_example :
    posts 7
      (run live sample_number after_start
        (submitted call_7 request_7
          ∷ submitted call_7 request_7
          ∷ written (update 7 (status_update canceled))
          ∷ submitted call_7 request_7
          ∷ [])
        empty_desk).posted
    ≤ 1
run-posts-once_example =
    run-posts-once live sample_number after_start
      (submitted call_7 request_7
        ∷ submitted call_7 request_7
        ∷ written (update 7 (status_update canceled))
        ∷ submitted call_7 request_7
        ∷ [])
      empty_desk 7 refl

-- the texts of two amounts
abbrev sample_text : Decimal → String
sample_text d = if leq d (of_ℕ 11_500) then "10000" else "12000"

abbrev recorded_texts : System
recorded_texts =
    put_equity sample_text (next_equity (ratio 3 4) (of_ℕ 10_000) (of_ℕ 12_000) (of_ℕ 10_000))
      running_texts

record_run :
    record_v322_equity account frozen sample_number sample_text (of_ℕ 10_000) running_texts
    ≡ ok (recorded_texts, next_equity (ratio 3 4) (of_ℕ 10_000) (of_ℕ 12_000) (of_ℕ 10_000))
unfolding open_orders record_v322_equity
record_run = refl

abbrev next_12 : Equity
next_12 = next_equity (ratio 3 4) (of_ℕ 10_000) (of_ℕ 12_000) (of_ℕ 10_000)

mark_reads : sample_number (sample_text next_12.high_water) ≡ finite next_12.high_water
unfolding open_orders next_equity
mark_reads = refl

budget_reads : sample_number (sample_text next_12.risk_budget) ≡ finite next_12.risk_budget
unfolding open_orders next_equity
budget_reads = refl

record_v322_equity-IsRecorded_example :
    IsRecorded account frozen sample_number (of_ℕ 10_000) running_texts recorded_texts next_12
record_v322_equity-IsRecorded_example =
    record_v322_equity-IsRecorded account frozen sample_number sample_text (of_ℕ 10_000)
      running_texts recorded_texts next_12 record_run mark_reads budget_reads
