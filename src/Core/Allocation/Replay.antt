-- ===== src/Core/Allocation/Replay.antt =====
-- The replay over the common trading days, and the virtual overlay position of the base engine.
use jh_holdings.Prelude.{
  ℕ, ◌+◌, ◌-◌, Option, none, some, List, [], ◌∷◌, Bool, false, ltb, ◌==◌, if◌then◌else◌,
}
use jh_holdings.Decimal.{Decimal}
use jh_holdings.Core.Allocation.Policy.{V322Policy}
use jh_holdings.Core.Allocation.Defs.{
  QqqRow, AllocationState, advance_state, Weights, base_weights, apply_jdss_overlay,
}

-- one common trading day: the month of its timestamp and the values of the four series there
pub record Session : Type 0 where
  pub month : ℕ
  pub qqq_row : QqqRow
  pub rs_return : Option Decimal
  pub active_tqqq : Bool
  pub active_soxl : Bool

-- a row of the target frame
pub record TargetRow : Type 0 where
  pub state : AllocationState
  pub active_tqqq : Bool
  pub active_soxl : Bool
  pub weights : Weights

unfoldable pub target_row : AllocationState → Session → V322Policy → TargetRow
target_row state s policy = record {
  state = state;
  active_tqqq = s.active_tqqq;
  active_soxl = s.active_soxl;
  weights = apply_jdss_overlay (base_weights state policy) s.active_tqqq s.active_soxl policy;
}

-- the loop of `replay_targets`, from the state of the session before
unfoldable pub replay_from : Option AllocationState → List Session → V322Policy → List TargetRow
replay_from previous [] policy = []
replay_from previous (s ∷ rest) policy =
    let state = advance_state previous s.month s.qqq_row s.rs_return policy in
    target_row state s policy ∷ replay_from (some state) rest policy

-- `replay_targets`; `none` is the `ValueError` when there is no common trading day
unfoldable pub replay_targets : List Session → V322Policy → Option (List TargetRow)
replay_targets [] policy = none
replay_targets (s ∷ rest) policy = some (replay_from none (s ∷ rest) policy)

-- the share counts that the trades of one day buy and sell
pub record DayTrades : Type 0 where
  pub buys : ℕ
  pub sells : ℕ

-- the loop of `virtual_active_series` before its shift: whether a position was open in each
-- session, and the quantity at the end. `max(0, open - sells)` is the subtraction that stops at 0.
unfoldable pub virtual_active : ℕ → List DayTrades → List Bool × ℕ
virtual_active held [] = ([], held)
virtual_active held (d ∷ rest) =
    let (active, last) = virtual_active (held + d.buys - d.sells) rest in
    (ltb 0 (held + d.buys) ∷ active, last)

-- `.shift(1, fill_value=False)`
unfoldable pub shift_one : Bool → List Bool → List Bool
shift_one before [] = []
shift_one before (b ∷ rest) = before ∷ shift_one b rest

-- `none` is the `AssertionError` when the replayed quantity is not the engine's open position
unfoldable pub virtual_active_series : List DayTrades → ℕ → Option (List Bool)
virtual_active_series days expected =
    let (active, last) = virtual_active 0 days in
    if last == expected then some (shift_one false active) else none
