-- ===== src/Store/Positions.antt =====
-- application/database.py: the `positions` table and `state_history`. A change of a column is a
-- value of `Change`, so that a column that the source refuses has no value here.
pub mod Laws
pub mod Versions
use jh_holdings.Prelude.{
  ℕ, ◌+◌, String, Option, none, some, List, [], ◌∷◌, ◌++◌, Bool, true, false, not, ◌==◌,
  if◌then◌else◌, str_eq, Result, ok, raise, ◌>>=◌, ◌>>◌, raise_if,
}
use jh_holdings.Decimal.{Decimal}
use jh_holdings.Core.Enums.{PositionState, RiskReviewLevel, is_state}
use jh_holdings.Core.Models.{PositionSnapshot}

-- a row: what `get_position` reads of it, and the plan that it names
pub record PositionRow : Type 0 where
  pub snapshot : PositionSnapshot
  pub tp_plan_id : Option ℕ

pub data Change : Type 0 where
  cycle_id : Option String → Change
  qty : ℕ → Change
  avg_price current_cost_basis cycle_exposure_cap staged_entry_capital : Decimal → Change
  cash_remaining anchor_price last_entry_price : Decimal → Change
  entry_count rebuy_count tp1_filled_qty : ℕ → Change
  last_entry_date : Option ℕ → Change
  rebuy_recovery_armed : Bool → Change
  risk_review_level : RiskReviewLevel → Change
  tp_plan_id : Option ℕ → Change

abbrev pub on_snapshot : (PositionSnapshot → PositionSnapshot) → PositionRow → PositionRow
on_snapshot f row = record row { snapshot = f row.snapshot }

-- `key = ?`
unfoldable pub set_column : Change → PositionRow → PositionRow
set_column (cycle_id x) row = on_snapshot (λ s. record s { cycle_id = x }) row
set_column (qty x) row = on_snapshot (λ s. record s { quantity = x }) row
set_column (avg_price x) row = on_snapshot (λ s. record s { average_price = x }) row
set_column (current_cost_basis x) row = on_snapshot (λ s. record s { current_cost_basis = x }) row
set_column (cycle_exposure_cap x) row = on_snapshot (λ s. record s { cycle_exposure_cap = x }) row
set_column (staged_entry_capital x) row =
    on_snapshot (λ s. record s { staged_entry_capital = x }) row
set_column (cash_remaining x) row = on_snapshot (λ s. record s { cash_remaining = x }) row
set_column (anchor_price x) row = on_snapshot (λ s. record s { anchor_price = x }) row
set_column (last_entry_price x) row = on_snapshot (λ s. record s { last_entry_price = x }) row
set_column (entry_count x) row = on_snapshot (λ s. record s { entry_count = x }) row
set_column (rebuy_count x) row = on_snapshot (λ s. record s { rebuy_count = x }) row
set_column (tp1_filled_qty x) row = on_snapshot (λ s. record s { tp1_filled_qty = x }) row
set_column (last_entry_date x) row = on_snapshot (λ s. record s { last_entry_date = x }) row
set_column (rebuy_recovery_armed x) row =
    on_snapshot (λ s. record s { rebuy_recovery_armed = x }) row
set_column (risk_review_level x) row = on_snapshot (λ s. record s { risk_review_level = x }) row
set_column (tp_plan_id x) row = record row { tp_plan_id = x }

unfoldable pub set_columns : List Change → PositionRow → PositionRow
unfolding set_column
set_columns [] row = row
set_columns (c ∷ cs) row = set_columns cs (set_column c row)

pub record HistoryRow : Type 0 where
  pub cycle_id : Option String
  pub symbol : String
  pub previous_state : PositionState
  pub new_state : PositionState
  pub reason_code : String

pub record Ledger : Type 0 where
  pub positions : List PositionRow
  pub history : List HistoryRow

pub data PositionError : Type 0 where
  no_position state_conflict version_conflict : PositionError

unfoldable pub find_position : String → List PositionRow → Option PositionRow
find_position symbol [] = none
find_position symbol (row ∷ rest) =
    let later = find_position symbol rest in
    if str_eq row.snapshot.symbol symbol then some row else later

unfoldable pub put_position : String → PositionRow → List PositionRow → List PositionRow
put_position symbol new [] = []
put_position symbol new (row ∷ rest) =
    let later = row ∷ put_position symbol new rest in
    if str_eq row.snapshot.symbol symbol then new ∷ rest else later

-- `get_position`; a missing row is its `KeyError`
abbrev pub read_position : Option PositionRow → Result PositionError PositionRow
read_position none = raise no_position
read_position (some row) = ok row

unfoldable pub get_position : String → Ledger → Result PositionError PositionSnapshot
get_position symbol ledger = do
  row ← read_position (find_position symbol ledger.positions)
  ok row.snapshot

pub record Transition : Type 0 where
  pub symbol : String
  pub expected_state : PositionState
  pub new_state : PositionState
  pub reason_code : String
  pub updates : List Change
  pub expected_version : Option ℕ

abbrev pub other_version : Option ℕ → ℕ → Bool
other_version none actual = false
other_version (some expected) actual = not (actual == expected)

-- the row that the `UPDATE` leaves
unfoldable pub moved_row : Transition → PositionRow → PositionRow
unfolding set_columns
moved_row t row =
    set_columns t.updates
      (on_snapshot (λ s. record s { state = t.new_state; version = s.version + 1 }) row)

unfoldable pub moved_ledger : Transition → PositionRow → Ledger → Ledger
unfolding moved_row
moved_ledger t row ledger = record {
  positions = put_position t.symbol (moved_row t row) ledger.positions;
  history =
      ledger.history
      ++ record {
        cycle_id = (moved_row t row).snapshot.cycle_id;
        symbol = t.symbol;
        previous_state = t.expected_state;
        new_state = t.new_state;
        reason_code = t.reason_code;
      }
        ∷ [];
}

-- `transition_position`: a raise rolls the transaction back. The row is read and written in one
-- transaction, so that the last of its checks, that the version is still the one read, holds.
unfoldable pub transition_position : Transition → Ledger → Result PositionError Ledger
transition_position t ledger = do
  row ← read_position (find_position t.symbol ledger.positions)
  raise_if (not (is_state row.snapshot.state t.expected_state)) state_conflict
  raise_if (other_version t.expected_version row.snapshot.version) version_conflict
  ok (moved_ledger t row ledger)
