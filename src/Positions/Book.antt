-- ===== src/Positions/Book.antt =====
-- application/position_manager.py: the tables that the position manager works on, and its calls of
-- the repository. Each call is a transaction of its own, so that a raise leaves what the calls
-- before it wrote.
use jh_holdings.Prelude.{
  ℕ, String, Option, none, some, List, ◌∷◌, Bool, true, false, Result, ok, raise,
}
use jh_holdings.Core.Models.{PositionSnapshot}
use jh_holdings.Core.TakeProfit.{TakeProfitError}
use jh_holdings.Orders.Ledger.{OrderRow, Table, find_order, mark_order_applied}
use jh_holdings.Store.Signals.{SignalRow, Signals, get_signal}
use jh_holdings.Store.Positions.{
  Ledger, PositionError, Transition, get_position, transition_position,
}
use jh_holdings.Store.Plans.{
  Plans, TpPlan, NewPlan, Leg, active_tp_plan, create_tp_plan, update_tp_fills, deactivate_tp_plan,
}

-- when a cycle's first take profit was completed, a value of `system_state`
pub record Completed : Type 0 where
  pub symbol : String
  pub cycle_id : String
  pub at : ℕ

pub record Book : Type 0 where
  pub orders : Table
  pub signals : Signals
  pub ledger : Ledger
  pub plans : Plans
  pub completed : List Completed

pub data FillError : Type 0 where
  no_order no_signal no_plan wrong_state unknown_action unknown_purpose : FillError
  fill_shrinks oversold : FillError
  position_error : PositionError → FillError
  take_profit_error : TakeProfitError → FillError

abbrev pub Run {ℓ} : Type ℓ → Type ℓ
Run A = Book → Book × Result FillError A

abbrev pub return {ℓ} : {A : Type ℓ} → A → Run A
return a book = (book, ok a)

abbrev pub fail {ℓ} : {A : Type ℓ} → FillError → Run A
fail e book = (book, raise e)

abbrev pub after {ℓ κ} :
    {A : Type ℓ} {B : Type κ} → Book × Result FillError A → (A → Run B) → Book × Result FillError B
after (book, ok a) next = next a book
after (book, raise e) next = (book, raise e)

infixl 5 ◌>>=◌ ◌>>◌
abbrev pub ◌>>=◌ {ℓ κ} : {A : Type ℓ} {B : Type κ} → Run A → (A → Run B) → Run B
◌>>=◌ call next book = after (call book) next

abbrev pub ◌>>◌ {κ} : {B : Type κ} → Run (Unit {0}) → Run B → Run B
call >> next = call >>= λ done. next

-- `if c: raise e`
abbrev pub guard : Bool → FillError → Run (Unit {0})
guard c e = elim c [ true ↦ fail e | false ↦ return tt ]

abbrev pub found {ℓ} : {A : Type ℓ} → Option A → FillError → Result FillError A
found none e = raise e
found (some a) e = ok a

abbrev pub position_result {ℓ} : {A : Type ℓ} → Result PositionError A → Result FillError A
position_result (ok a) = ok a
position_result (raise e) = raise (position_error e)

abbrev pub plan_result {ℓ} : {A : Type ℓ} → Result TakeProfitError A → Result FillError A
plan_result (ok a) = ok a
plan_result (raise e) = raise (take_profit_error e)

abbrev pub given {ℓ} : {A : Type ℓ} → Result FillError A → Run A
given result book = (book, result)

-- the repository's calls
abbrev pub read_order : ℕ → Run OrderRow
read_order id book = (book, found (find_order id book.orders) no_order)

abbrev pub read_signal : Option ℕ → Run SignalRow
read_signal none book = (book, raise no_signal)
read_signal (some id) book = (book, found (get_signal id book.signals) no_signal)

abbrev pub position_of : String → Run PositionSnapshot
position_of symbol book = (book, position_result (get_position symbol book.ledger))

abbrev pub plan_of : String → Run (Option TpPlan)
plan_of symbol book = (book, ok (active_tp_plan symbol book.plans))

abbrev pub new_plan : NewPlan → Run ℕ
new_plan p book =
    let (plans, id) = create_tp_plan p book.plans in (record book { plans = plans }, ok id)

abbrev pub moved : Book → Result PositionError Ledger → Book × Result FillError (Unit {0})
moved book (ok ledger) = (record book { ledger = ledger }, ok tt)
moved book (raise e) = (book, raise (position_error e))

abbrev pub move : Transition → Run (Unit {0})
move t book = moved book (transition_position t book.ledger)

abbrev pub set_filled : ℕ → Leg → ℕ → Run (Unit {0})
set_filled id leg n book = (record book { plans = update_tp_fills id leg n book.plans }, ok tt)

abbrev pub end_plan : ℕ → Run (Unit {0})
end_plan id book = (record book { plans = deactivate_tp_plan id book.plans }, ok tt)

abbrev pub mark_applied : ℕ → Run (Unit {0})
mark_applied id book = (record book { orders = (mark_order_applied id book.orders).0 }, ok tt)

abbrev pub note_completed : Completed → Run (Unit {0})
note_completed c book = (record book { completed = c ∷ book.completed }, ok tt)
