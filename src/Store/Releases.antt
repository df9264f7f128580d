-- ===== src/Store/Releases.antt =====
-- application/database.py: the intents to release idle cash, one for each signal. Times are numbers,
-- and the clock of a call is its argument. The `updated_at` of a row, which nothing reads, is left out.
pub mod Laws
mod Tests
use jh_holdings.Prelude.{
  ℕ, Option, none, some, List, [], ◌∷◌, ◌++◌, map, any, Bool, true, false, not, ◌&&◌, ◌||◌, ltb,
  leb, ◌==◌, if◌then◌else◌, Result, ok, raise,
}
use jh_holdings.Decimal.{Decimal, total}
use jh_holdings.Store.Approvals.{ApprovalRow, Approvals, is_active, expire_row}

pub data IntentStatus : Type 0 where
  waiting_sgov_fill awaiting_execution completed canceled expired : IntentStatus

abbrev pub is_waiting : IntentStatus → Bool
is_waiting waiting_sgov_fill = true
is_waiting _ = false

abbrev pub is_awaiting : IntentStatus → Bool
is_awaiting awaiting_execution = true
is_awaiting _ = false

-- the statuses that are not `COMPLETED`, `CANCELED` or `EXPIRED`
abbrev pub is_open : IntentStatus → Bool
is_open status = is_waiting status || is_awaiting status

pub record IntentRow : Type 0 where
  pub signal_id : ℕ
  pub required_amount : Decimal
  pub status : IntentStatus
  pub execution_approval_id : Option ℕ
  pub expires_at : ℕ
  pub created_at : ℕ

abbrev pub Intents : Type 0
Intents = List IntentRow

-- the raise of an intent that is not there
pub data IntentError : Type 0 where
  no_intent : IntentError

-- the row of a signal, if it has one
unfoldable pub find_intent : ℕ → Intents → Option IntentRow
find_intent id [] = none
find_intent id (row ∷ rest) =
    let later = find_intent id rest in if row.signal_id == id then some row else later

abbrev or_no_intent : Option IntentRow → Result IntentError IntentRow
or_no_intent none = raise no_intent
or_no_intent (some row) = ok row

unfoldable pub get_cash_release_intent : ℕ → Intents → Result IntentError IntentRow
get_cash_release_intent id rows = or_no_intent (find_intent id rows)

-- `ON CONFLICT(signal_id) DO UPDATE`: a closed intent is opened again, an open one keeps its
-- status and its approval
unfoldable pub on_conflict : Decimal → (expires_at : ℕ) → IntentRow → IntentRow
on_conflict required_amount expires_at row = record row {
  required_amount = required_amount;
  status = if is_open row.status then row.status else waiting_sgov_fill;
  execution_approval_id = if is_open row.status then row.execution_approval_id else none;
  expires_at = expires_at;
}

-- an `UPDATE` of the row of one signal
abbrev pub of_signal : ℕ → (IntentRow → IntentRow) → IntentRow → IntentRow
of_signal id change row = if row.signal_id == id then change row else row

abbrev pub new_intent : ℕ → Decimal → (expires_at now : ℕ) → IntentRow
new_intent id required_amount expires_at now = record {
  signal_id = id;
  required_amount = required_amount;
  status = waiting_sgov_fill;
  execution_approval_id = none;
  expires_at = expires_at;
  created_at = now;
}

-- `upsert_cash_release_intent`, its writes; it then returns the row that is there
unfoldable pub upsert_cash_release_intent : ℕ → Decimal → (expires_at now : ℕ) → Intents → Intents
upsert_cash_release_intent id required_amount expires_at now rows = elim (find_intent id rows) [
  | none ↦ rows ++ new_intent id required_amount expires_at now ∷ []
  | some row ↦ map (of_signal id (on_conflict required_amount expires_at)) rows
]

abbrev pub is_live : (now : ℕ) → IntentRow → Bool
is_live now row = is_open row.status && leb now row.expires_at

unfoldable pub cash_release_intent_is_active : ℕ → (now : ℕ) → Intents → Bool
cash_release_intent_is_active id now rows = any (λ row. row.signal_id == id && is_live now row) rows

unfoldable pub has_active_cash_release_intents : (now : ℕ) → Intents → Bool
has_active_cash_release_intents now rows = any (is_live now) rows

-- `execution_approval_id IN (SELECT ... WHERE status != 'ACTIVE')`, which no missing id satisfies
unfoldable pub approval_is_spent : Approvals → Option ℕ → Bool
approval_is_spent approvals none = false
approval_is_spent approvals (some id) =
    any (λ row. not (is_active row.status) && (row.approval_id == id)) approvals

unfoldable pub cancel_spent : Approvals → IntentRow → IntentRow
cancel_spent approvals row =
    if is_awaiting row.status && approval_is_spent approvals row.execution_approval_id
    then record row { status = canceled }
    else row

unfoldable pub expire_intent : (now : ℕ) → IntentRow → IntentRow
expire_intent now row =
    if is_open row.status && ltb row.expires_at now then record row { status = expired } else row

-- `ORDER BY created_at`, by insertion; rows of one instant stay in the table's order
unfoldable pub insert_intent : IntentRow → Intents → Intents
insert_intent row [] = row ∷ []
insert_intent row (next ∷ rest) =
    let later = next ∷ insert_intent row rest in
    if leb row.created_at next.created_at then row ∷ (next ∷ rest) else later

unfoldable pub waiting_by_age : (now : ℕ) → Intents → Intents
waiting_by_age now [] = []
waiting_by_age now (row ∷ rest) =
    let others = waiting_by_age now rest in
    if is_waiting row.status && leb now row.expires_at then insert_intent row others else others

pub record Pending : Type 0 where
  pub approvals : Approvals
  pub intents : Intents
  pub returned : Intents

-- `pending_cash_release_intents`: its three updates in their order, and what it returns
unfoldable pub pending_cash_release_intents : (now : ℕ) → Approvals → Intents → Pending
pending_cash_release_intents now approvals rows =
    let checked = map (expire_row now) approvals in
    let settled = map (expire_intent now) (map (cancel_spent checked) rows) in
    record { approvals = checked; intents = settled; returned = waiting_by_age now settled }

-- the test of `reserved_cash_release_amount`, with the signal that is left out
unfoldable pub is_reserved : Option ℕ → (now : ℕ) → IntentRow → Bool
is_reserved none now row = is_awaiting row.status && leb now row.expires_at
is_reserved (some id) now row =
    is_awaiting row.status && leb now row.expires_at && not (row.signal_id == id)

unfoldable pub reserved_amounts : Option ℕ → (now : ℕ) → Intents → List Decimal
reserved_amounts excluded now [] = []
reserved_amounts excluded now (row ∷ rest) =
    let others = reserved_amounts excluded now rest in
    if is_reserved excluded now row then row.required_amount ∷ others else others

unfoldable pub reserved_cash_release_amount : Option ℕ → (now : ℕ) → Intents → Decimal
reserved_cash_release_amount excluded now rows = total (reserved_amounts excluded now rows)

unfoldable pub with_status : IntentStatus → Option ℕ → IntentRow → IntentRow
with_status status approval row = record row { status = status; execution_approval_id = approval }

-- `update_cash_release_intent`
unfoldable pub update_cash_release_intent :
    ℕ → IntentStatus → Option ℕ → Intents → Result IntentError Intents
update_cash_release_intent id status approval rows = elim (find_intent id rows) [
  | none ↦ raise no_intent
  | some row ↦ ok (map (of_signal id (with_status status approval)) rows)
]

-- the `UPDATE` of a halt
unfoldable pub halt_intent : IntentRow → IntentRow
halt_intent row = if is_open row.status then record row { status = canceled } else row
