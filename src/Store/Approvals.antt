-- ===== src/Store/Approvals.antt =====
-- application/database.py: one-time approvals. A hash of a token is a number, and times are
-- numbers. A raise inside a transaction rolls its writes back.
pub mod Laws
pub mod Accepts
use jh_holdings.Prelude.{
  ℕ, ◌+◌, Option, none, some, List, [], ◌∷◌, ◌++◌, map, any, Bool, true, false, not, ◌&&◌, ◌||◌,
  ltb, leb, ◌==◌, if◌then◌else◌, Result, ok, raise, ◌>>=◌, ◌>>◌, raise_if,
}
use jh_holdings.Decimal.{Decimal, of_ℕ, ◌⊕◌}
use jh_holdings.Core.Enums.{ApprovalStage, same_stage}

pub data ApprovalStatus : Type 0 where
  active used canceled expired : ApprovalStatus

abbrev pub is_active : ApprovalStatus → Bool
is_active active = true
is_active _ = false

pub record ApprovalRow : Type 0 where
  pub approval_id : ℕ
  pub signal_id : ℕ
  pub token_hash : ℕ
  pub stage : ApprovalStage
  pub expires_at : ℕ
  pub status : ApprovalStatus

pub data ApprovalError : Type 0 where
  not_found not_active wrong_stage token_expired wrong_token : ApprovalError

abbrev pub Approvals : Type 0
Approvals = List ApprovalRow

unfoldable pub find_approval : ℕ → Approvals → Option ApprovalRow
find_approval id [] = none
find_approval id (row ∷ rest) =
    let later = find_approval id rest in if row.approval_id == id then some row else later

-- `UPDATE approvals SET status = ? WHERE approval_id = ?`
unfoldable pub status_row : ℕ → ApprovalStatus → ApprovalRow → ApprovalRow
status_row id status row = if row.approval_id == id then record row { status = status } else row

abbrev pub set_status : ℕ → ApprovalStatus → Approvals → Approvals
set_status id status rows = map (status_row id status) rows

-- `create_approval`, under the next row id
unfoldable pub create_approval :
    (id signal_id token_hash : ℕ) → ApprovalStage → (expires_at : ℕ) → Approvals → Approvals
create_approval id signal_id token_hash stage expires_at rows =
    rows
    ++ record {
      approval_id = id;
      signal_id = signal_id;
      token_hash = token_hash;
      stage = stage;
      expires_at = expires_at;
      status = active;
    }
      ∷ []

abbrev or_not_found : Option ApprovalRow → Result ApprovalError ApprovalRow
or_not_found none = raise not_found
or_not_found (some row) = ok row

-- The body of `consume_approval` in its transaction: the writes so far, and how it ended. The row
-- that has expired is marked before the raise.
unfoldable pub consume_row :
    (token_hash : ℕ)
    → ApprovalStage
    → (now : ℕ) → ApprovalRow
    → Approvals
    → Approvals × Result ApprovalError ℕ
consume_row token_hash stage now row rows =
    if not (is_active row.status)
    then (rows, raise not_active)
    else if not (same_stage row.stage stage)
    then (rows, raise wrong_stage)
    else if ltb row.expires_at now
    then (set_status row.approval_id expired rows, raise token_expired)
    else if not (row.token_hash == token_hash)
    then (rows, raise wrong_token)
    else (set_status row.approval_id used rows, ok row.signal_id)

-- `transaction`: the writes are committed, or rolled back on a raise
unfoldable pub commit {ℓ κ} :
    {S : Type ℓ} {E : Type 0} {A : Type κ} → S → S × Result E A → S × Result E A
commit before (after, ok a) = (after, ok a)
commit before (after, raise e) = (before, raise e)

unfoldable pub consume_approval :
    (id token_hash : ℕ) → ApprovalStage → (now : ℕ) → Approvals → Approvals × Result ApprovalError ℕ
consume_approval id token_hash stage now rows = elim (find_approval id rows) [
  | none ↦ (rows, raise not_found)
  | some row ↦ commit rows (consume_row token_hash stage now row rows)
]

-- `cancel_approval`: every active approval of the signal is canceled
unfoldable pub cancel_row : ℕ → ApprovalRow → ApprovalRow
cancel_row signal_id row =
    if row.signal_id == signal_id && is_active row.status
    then record row { status = canceled }
    else row

unfoldable pub cancel_approval : ℕ → Approvals → Result ApprovalError Approvals
cancel_approval id rows = do
  row ← or_not_found (find_approval id rows)
  ok (map (cancel_row row.signal_id) rows)

-- the `UPDATE` of a halt, and that of `pending_cash_release_intents`
unfoldable pub halt_row : ApprovalRow → ApprovalRow
halt_row row = if is_active row.status then record row { status = canceled } else row

unfoldable pub expire_row : ℕ → ApprovalRow → ApprovalRow
expire_row now row =
    if is_active row.status && ltb row.expires_at now then record row { status = expired } else row

-- `has_active_approvals`
unfoldable pub has_active_approvals : ℕ → Approvals → Bool
has_active_approvals now rows = any (λ row. is_active row.status && leb now row.expires_at) rows
