-- ===== src/Store/Tests.antt =====
-- The tables at sample rows.
use jh_holdings.Prelude.{
  ℕ, ◌≡◌, ◌≢◌, ◌↔◌, refl, none, some, [], ◌∷◌, true, false, Result, ok, raise,
}
use jh_holdings.Decimal.{of_ℕ, ratio, ◌⊕◌, ◌⊖◌, ◌⊗◌, divide, leq, less, same, ◌≈◌}
use jh_holdings.Core.Enums.{
  execution, holding_1st, safe_mode, PositionState-discrete, core_buy, sgov_sweep_buy,
}
use jh_holdings.Core.Samples.{position_in}
use jh_holdings.Orders.Ledger.{OrderRow, buy, filled, partial_filled, find_order, put_order}
use jh_holdings.Store.Approvals.{
  Approvals, active, token_expired, find_approval, status_row, consume_row, commit,
  consume_approval,
}
use jh_holdings.Store.Approvals.Laws.{cancel, halt, write_all, consume-once}
use jh_holdings.Store.Approvals.Accepts.{IsAccepted, left_by, consume_approval-accepts_iff}
use jh_holdings.Store.Positions.{
  qty, Ledger, Transition, find_position, moved_ledger, transition_position,
}
use jh_holdings.Store.Positions.Versions.{move_all, transition-version_once}
use jh_holdings.Store.Fills.{
  CoreRow, CoreTables, FillError, find_core, put_core, find_progress, progress_of, upsert,
  next_holding, apply_delta, apply_order, apply_core_fill, is_unapplied,
}
use jh_holdings.Store.Fills.Laws.{apply_core_fill-twice}
use jh_holdings.Store.Fills.Reports.{reported, apply_reports, apply_reports-last}
use jh_holdings.Store.IdleFills.{
  IdleState, IdleTables, of_symbol, traded, next_state, apply_idle_order, apply_idle_cash_fill,
}
use jh_holdings.Store.IdleFills.Laws.{Accounted, apply_idle_cash_fill-Accounted}

abbrev approval_until : ℕ → Approvals
approval_until expires_at =
    record {
      approval_id = 1;
      signal_id = 7;
      token_hash = 9;
      stage = execution;
      expires_at = expires_at;
      status = active;
    }
    ∷ []

consume-once_example :
    (consume_approval 1 9 execution 6
      (write_all (cancel 1 ∷ halt ∷ []) (consume_approval 1 9 execution 5 (approval_until 8)).0)).1
    ≢ ok 7
unfolding find_approval status_row consume_row commit consume_approval
consume-once_example =
    consume-once 1 9 execution 5 (approval_until 8) 7 refl (cancel 1 ∷ halt ∷ []) 9 execution 6 7

consume_approval-accepts_iff_example :
    (((consume_approval 1 9 execution 5 (approval_until 3)).1 ≡ ok 7)
      ↔ IsAccepted 1 9 execution 5 (approval_until 3) 7)
    × ((consume_approval 1 9 execution 5 (approval_until 3)).0
        ≡ left_by 1 (approval_until 3) (consume_approval 1 9 execution 5 (approval_until 3)).1)
consume_approval-accepts_iff_example =
    consume_approval-accepts_iff 1 9 execution 5 (approval_until 3) 7

-- An approval that has expired stays as it was.
expired_stays :
    consume_approval 1 9 execution 5 (approval_until 3) ≡ (approval_until 3, raise token_expired)
unfolding find_approval status_row consume_row commit consume_approval
expired_stays = refl

abbrev positions : Ledger
positions = record {
  positions = record { snapshot = position_in holding_1st (of_ℕ 8_000); tp_plan_id = none } ∷ [];
  history = [];
}

abbrev to_safe_mode : Transition
to_safe_mode = record {
  symbol = "TQQQ";
  expected_state = holding_1st;
  new_state = safe_mode;
  reason_code = "BROKER_ORDER_MISSING";
  updates = [];
  expected_version = some 1;
}

abbrev sold_some : Transition
sold_some = record to_safe_mode { new_state = holding_1st; updates = qty 40 ∷ [] }

abbrev moved : Ledger
moved =
    moved_ledger sold_some
      (record { snapshot = position_in holding_1st (of_ℕ 8_000); tp_plan_id = none }) positions

transition-version_once_example :
    transition_position to_safe_mode (move_all [] moved) ≢ ok positions
unfolding find_position transition_position moved_ledger PositionState-discrete
transition-version_once_example =
    transition-version_once sold_some to_safe_mode 1 positions moved refl refl refl refl []
      positions

abbrev core_order : OrderRow
core_order = record {
  client_order_id = 4;
  symbol = "QQQ";
  side = buy;
  price = some (of_ℕ 10);
  qty = 6;
  purpose = core_buy;
  status = partial_filled;
  broker_order_id = some 40;
  filled_qty = 2;
  average_fill_price = some (of_ℕ 9);
  applied = false;
  created_at = 1;
  signal_id = none;
}

abbrev core_row : CoreRow
core_row = record {
  symbol = "QQQ";
  trend_active = true;
  target_weight = ratio 1 2;
  target_qty = 9;
  signal_trade_date = none;
  qty = 3;
  avg_price = of_ℕ 8;
  cost_basis = of_ℕ 24;
  version = 0;
}

abbrev core_tables : CoreTables
core_tables = record { orders = core_order ∷ []; cores = core_row ∷ []; progress = [] }

abbrev or_tables : Result FillError CoreTables → CoreTables
or_tables (ok t) = t
or_tables (raise e) = core_tables

apply_core_fill-twice_example :
    (apply_core_fill 4 (or_tables (apply_core_fill 4 core_tables))
      ≡ ok (or_tables (apply_core_fill 4 core_tables)))
    × (is_unapplied core_order (progress_of 4 (or_tables (apply_core_fill 4 core_tables)).progress)
        ≡ false)
unfolding find_order find_core find_progress put_core upsert next_holding apply_delta apply_order
    apply_core_fill less same leq ◌⊕◌ ◌⊖◌ ◌⊗◌
apply_core_fill-twice_example =
    apply_core_fill-twice 4 core_order core_tables (or_tables (apply_core_fill 4 core_tables)) refl
      refl

abbrev two_filled : CoreTables
two_filled = or_tables (apply_reports core_order ((1, of_ℕ 9) ∷ (2, of_ℕ 9) ∷ []) core_tables)

abbrev all_filled : CoreTables → CoreTables
all_filled tables = or_tables (apply_order (reported core_order (6, of_ℕ 10)) tables)

apply_reports-last_example :
    (left : CoreRow) × (right : CoreRow) × (find_core "QQQ" (all_filled two_filled).cores
      ≡ some left)
    × (find_core "QQQ" (all_filled core_tables).cores ≡ some right)
    × (left.qty ≡ right.qty)
    × (left.cost_basis ≈ right.cost_basis)
unfolding find_core find_progress put_core upsert next_holding apply_delta apply_order apply_reports
    less same leq ◌⊕◌ ◌⊖◌ ◌⊗◌ divide
apply_reports-last_example =
    apply_reports-last core_order ((1, of_ℕ 9) ∷ (2, of_ℕ 9) ∷ []) (6, of_ℕ 10) core_row core_tables
      two_filled (all_filled two_filled) (all_filled core_tables) refl refl refl refl refl

abbrev idle_order : OrderRow
idle_order = record core_order {
  symbol = "SGOV";
  purpose = sgov_sweep_buy;
  status = filled;
  filled_qty = 6;
}

abbrev idle_tables : IdleTables
idle_tables = record {
  orders = idle_order ∷ [];
  state = some (record { symbol = "SGOV"; managed_qty = 5; avg_price = of_ℕ 9; version = 2 });
  progress =
      record { client_order_id = 4; applied_filled_qty = 2; applied_notional = of_ℕ 18 } ∷ [];
}

abbrev or_idle : Result FillError IdleTables → IdleTables
or_idle (ok t) = t
or_idle (raise e) = idle_tables

apply_idle_cash_fill-Accounted_example :
    (s : IdleState) × (s' : IdleState) × (of_symbol "SGOV" idle_tables.state ≡ some s)
    × ((or_idle (apply_idle_cash_fill 4 idle_tables)).state ≡ some s')
    × Accounted buy s.managed_qty s'.managed_qty
        (progress_of 4 idle_tables.progress).applied_filled_qty
        6
    × ((progress_of 4 (or_idle (apply_idle_cash_fill 4 idle_tables)).progress).applied_filled_qty
        ≡ 6)
unfolding find_order put_order find_progress upsert traded next_state apply_idle_order
    apply_idle_cash_fill less leq ◌⊕◌ ◌⊖◌ ◌⊗◌ divide
apply_idle_cash_fill-Accounted_example =
    apply_idle_cash_fill-Accounted 4 idle_order idle_tables
      (or_idle (apply_idle_cash_fill 4 idle_tables)) refl refl
