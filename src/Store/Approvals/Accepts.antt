-- ===== src/Store/Approvals/Accepts.antt =====
-- application/database.py: which calls of `consume_approval` succeed, and the rows that each leaves.
use jh_holdings.Prelude.{
  ℕ, ◌≤◌, ◌≡◌, ◌↔◌, refl, inl, inr, some, [], ◌∷◌, arith, Result, ok, raise, Option-cases, subst,
  ap, ◌∙◌,
}
use jh_holdings.Core.Enums.{ApprovalStage}
use jh_holdings.Store.Approvals.{
  active, used, ApprovalRow, ApprovalError, Approvals, find_approval, set_status, consume_row,
  commit, consume_approval,
}

-- The call may use the approval: it is there and active, at the stage and with the token of the
-- call, has not expired, and stands for the signal.
pub IsAccepted : (id token_hash : ℕ) → ApprovalStage → (now : ℕ) → Approvals → (signal : ℕ) → Type 0
IsAccepted id token_hash stage now rows signal =
    (row : ApprovalRow) × (find_approval id rows ≡ some row)
    × (row.status ≡ active)
    × (row.stage ≡ stage)
    × (now ≤ row.expires_at)
    × (row.token_hash ≡ token_hash)
    × (row.signal_id ≡ signal)

-- the rows that a call leaves, by its result
abbrev pub left_by : ℕ → Approvals → Result ApprovalError ℕ → Approvals
left_by id rows (ok signal) = set_status id used rows
left_by id rows (raise e) = rows

find_approval-id :
    (id : ℕ) (rows : Approvals) (row : ApprovalRow)
    → find_approval id rows ≡ some row
    → row.approval_id ≡ id
unfolding find_approval
find_approval-id id [] row e = cc
find_approval-id id (r ∷ rows) row e = ground (arith, find_approval-id id rows row)

module _ (row : ApprovalRow) (token_hash : ℕ) (stage : ApprovalStage) (now : ℕ)
    (rows : Approvals) where
  consume_row-accepts :
      (signal : ℕ)
      → (commit rows (consume_row token_hash stage now row rows)).1 ≡ ok signal
      → (row.status ≡ active)
        × (row.stage ≡ stage)
        × (now ≤ row.expires_at)
        × (row.token_hash ≡ token_hash)
        × (row.signal_id ≡ signal)
  unfolding consume_row commit
  consume_row-accepts signal h = ground arith

  consume_row-accepted :
      row.status ≡ active
      → row.stage ≡ stage
      → now ≤ row.expires_at
      → row.token_hash ≡ token_hash
      → (commit rows (consume_row token_hash stage now row rows)).1 ≡ ok row.signal_id
  unfolding consume_row commit
  consume_row-accepted p q r t = ground arith

  consume_row-left :
      (commit rows (consume_row token_hash stage now row rows)).0
      ≡ left_by row.approval_id rows (commit rows (consume_row token_hash stage now row rows)).1
  unfolding consume_row commit
  consume_row-left = ground arith

consume_approval-left :
    (id token_hash : ℕ) (stage : ApprovalStage) (now : ℕ) (rows : Approvals)
    → (consume_approval id token_hash stage now rows).0
      ≡ left_by id rows (consume_approval id token_hash stage now rows).1
unfolding consume_approval
consume_approval-left id token_hash stage now rows = elim (Option-cases (find_approval id rows)) [
  | inl absent ↦ rw (absent, consume_approval) refl
  | inr (row, found) ↦
      rw (found, consume_approval)
        (subst
          (λ k.
            (commit rows (consume_row token_hash stage now row rows)).0
            ≡ left_by k rows (commit rows (consume_row token_hash stage now row rows)).1)
          (find_approval-id id rows row found) (consume_row-left row token_hash stage now rows))
]

-- `consume_approval` returns a signal exactly where the approval is there and active, has the
-- stage and the token of the call, has not expired, and stands for that signal; it then marks
-- the approval as used, and a call that raises leaves the approvals as they were, also one that
-- finds an expired approval.
pub consume_approval-accepts_iff :
    (id token_hash : ℕ) (stage : ApprovalStage) (now : ℕ) (rows : Approvals) (signal : ℕ)
    → (((consume_approval id token_hash stage now rows).1 ≡ ok signal)
        ↔ IsAccepted id token_hash stage now rows signal)
      × ((consume_approval id token_hash stage now rows).0
          ≡ left_by id rows (consume_approval id token_hash stage now rows).1)
unfolding consume_approval IsAccepted
consume_approval-accepts_iff id token_hash stage now rows signal =
    ((to, fro), consume_approval-left id token_hash stage now rows)
  where
    to :
        (consume_approval id token_hash stage now rows).1 ≡ ok signal
        → IsAccepted id token_hash stage now rows signal
    to h = elim (Option-cases (find_approval id rows)) [
      | inl absent ↦ cc (rw (absent, consume_approval) at h)
      | inr (row, found) ↦
          let (p, q, r, t, u) =
            consume_row-accepts row token_hash stage now rows signal
              (rw (found, consume_approval) at h) in
          (row, found, p, q, r, t, u)
    ]

    fro :
        IsAccepted id token_hash stage now rows signal
        → (consume_approval id token_hash stage now rows).1 ≡ ok signal
    fro (row, found, p, q, r, t, u) =
        rw (found, consume_approval)
          (consume_row-accepted row token_hash stage now rows p q r t ∙ ap ok u)
