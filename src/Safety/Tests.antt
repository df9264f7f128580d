-- ===== src/Safety/Tests.antt =====
-- A halt with one order that is canceled, one that is not, and one that was never sent.
use jh_holdings.Prelude.{
  ℕ, ◌≡◌, refl, Option, none, some, [], ◌∷◌, any, true, false, ◌&&◌, ◌||◌, ◌==◌, if◌then◌else◌, ok,
}
use jh_holdings.Core.Enums.{core_buy, execution}
use jh_holdings.Orders.Ledger.{OrderRow, buy, submitted}
use jh_holdings.Orders.Manager.{buy_is_halted}
use jh_holdings.Store.Approvals.{active, has_active_approvals}
use jh_holdings.Store.Releases.{has_active_cash_release_intents}
use jh_holdings.Safety.{
  Operator, CancelReply, original, cancel_is_confirmed, outcome_of, ids_of, active_count, halt,
}
use jh_holdings.Safety.Laws.{is_open_buy, confirmed, halt-blocks_all}

abbrev open_buy : (id : ℕ) → Option ℕ → OrderRow
open_buy id broker_order_id = record {
  client_order_id = id;
  symbol = "QQQ";
  side = buy;
  price = none;
  qty = 6;
  purpose = core_buy;
  status = submitted;
  broker_order_id = broker_order_id;
  filled_qty = 0;
  average_fill_price = none;
  applied = false;
  created_at = 1;
  signal_id = none;
}

abbrev operator : Operator
operator = record {
  system = λ key. none;
  approvals =
      record {
        approval_id = 1;
        signal_id = 2;
        token_hash = 5;
        stage = execution;
        expires_at = 6;
        status = active;
      }
      ∷ [];
  intents = [];
  orders = open_buy 1 (some 11) ∷ (open_buy 2 (some 12) ∷ (open_buy 3 none ∷ []));
}

-- only the first order is read back as canceled
abbrev replies : ℕ → CancelReply
replies id = original (some id) (if id == 11 then "CANCELED" else "PENDING_CANCEL")

halt_lists :
    ((halt replies "noon" operator).1.canceled_order_ids ≡ 1 ∷ [])
    × ((halt replies "noon" operator).1.uncertain_order_ids ≡ 2 ∷ 3 ∷ [])
    × ((halt replies "noon" operator).1.canceled_approvals ≡ 1)
unfolding halt ids_of outcome_of cancel_is_confirmed active_count
halt_lists = (refl, refl, refl)

halt-blocks_all_example :
    let (after, result) = halt replies "noon" operator in
    (buy_is_halted true after.system ≡ ok true)
    × (has_active_approvals 5 after.approvals ≡ false)
    × (has_active_cash_release_intents 5 after.intents ≡ false)
    × ((any (λ k. k == 2) result.canceled_order_ids || any (λ k. k == 2) result.uncertain_order_ids)
        ≡ any (is_open_buy 2) operator.orders)
    × (any (λ k. k == 2) result.canceled_order_ids
        ≡ any (λ row. is_open_buy 2 row && confirmed replies row.broker_order_id) operator.orders)
halt-blocks_all_example = halt-blocks_all replies "noon" operator true 5 2
