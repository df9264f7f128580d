-- ===== src/Store/Approvals/Laws.antt =====
-- What the approvals keep through any sequence of calls.
use jh_holdings.Prelude.{
  ℕ, ◌≡◌, ◌≢◌, refl, inl, inr, Option, none, some, List, [], ◌∷◌, ◌++◌, map, Bool, false, ◌==◌,
  arith, Result, ok, raise, Bool-cases, Option-cases, sym, subst, ap, some-injective,
}
use jh_holdings.Core.Enums.{ApprovalStage}
use jh_holdings.Store.Approvals.{
  ApprovalStatus, used, is_active, ApprovalRow, ApprovalError, Approvals, find_approval, set_status,
  status_row, create_approval, consume_row, commit, consume_approval, cancel_row, cancel_approval,
  halt_row, expire_row,
}

-- A call on the table, as one write.
pub data Write : Type 0 where
  create : (id signal_id token_hash : ℕ) → ApprovalStage → (expires_at : ℕ) → Write
  consume : (id token_hash : ℕ) → ApprovalStage → (now : ℕ) → Write
  cancel : (id : ℕ) → Write
  halt : Write
  expire : (now : ℕ) → Write

abbrev or_same : Result ApprovalError Approvals → Approvals → Approvals
or_same (ok rows') rows = rows'
or_same (raise e) rows = rows

unfoldable pub write : Write → Approvals → Approvals
write (create id signal_id token_hash stage expires_at) rows =
    create_approval id signal_id token_hash stage expires_at rows
write (consume id token_hash stage now) rows = (consume_approval id token_hash stage now rows).0
write (cancel id) rows = or_same (cancel_approval id rows) rows
write halt rows = map halt_row rows
write (expire now) rows = map (expire_row now) rows

unfoldable pub write_all : List Write → Approvals → Approvals
write_all [] rows = rows
write_all (w ∷ ws) rows = write_all ws (write w rows)

-- The approval is there and is no longer active.
pub Spent : ℕ → Approvals → Type 0
Spent id rows =
    (row : ApprovalRow) × (find_approval id rows ≡ some row) × (is_active row.status ≡ false)

find-append :
    (id : ℕ) (rows new : Approvals) (row : ApprovalRow)
    → find_approval id rows ≡ some row
    → find_approval id (rows ++ new) ≡ some row
unfolding find_approval
find-append id [] new row e = cc
find-append id (r ∷ rows) new row e = ground (arith, find-append id rows new row)

id_test :
    (f : ApprovalRow → ApprovalRow)
    → ((r : ApprovalRow) → (f r).approval_id ≡ r.approval_id)
    → (id : ℕ) (r : ApprovalRow) {b : Bool} → (r.approval_id == id) ≡ b
    → ((f r).approval_id == id) ≡ b
id_test f keeps id r {b} h = subst (λ k. (k == id) ≡ b) (sym (keeps r)) h

find-map :
    (f : ApprovalRow → ApprovalRow)
    → ((r : ApprovalRow) → (f r).approval_id ≡ r.approval_id)
    → (id : ℕ) (rows : Approvals) (row : ApprovalRow) → find_approval id rows ≡ some row
    → find_approval id (map f rows) ≡ some (f row)
unfolding find_approval
find-map f keeps id [] row e = cc
find-map f keeps id (r ∷ rows) row e = elim (Bool-cases (r.approval_id == id)) [
  | inl h ↦ rw (id_test f keeps id r h) (ap (λ a. some (f a)) (some-injective _ _ (rw h at e)))
  | inr h ↦ rw (id_test f keeps id r h) (find-map f keeps id rows row (rw h at e))
]

Spent-map :
    (f : ApprovalRow → ApprovalRow)
    → ((r : ApprovalRow) → (f r).approval_id ≡ r.approval_id)
    → ((r : ApprovalRow) → is_active r.status ≡ false → is_active (f r).status ≡ false)
    → (id : ℕ) (rows : Approvals) → Spent id rows
    → Spent id (map f rows)
unfolding Spent
Spent-map f keeps stays id rows (row, found, done) =
    (f row, find-map f keeps id rows row found, stays row done)

module _ (id : ℕ) (rows : Approvals) (spent : Spent id rows) where
  create-Spent :
      (k signal_id token_hash : ℕ) (stage : ApprovalStage) (expires_at : ℕ)
      → Spent id (create_approval k signal_id token_hash stage expires_at rows)
  unfolding Spent create_approval
  create-Spent k signal_id token_hash stage expires_at =
      let (row, found, done) = spent in (row, find-append id rows _ row found, done)

  set_status-Spent :
      (k : ℕ) (status : ApprovalStatus)
      → is_active status ≡ false
      → Spent id (set_status k status rows)
  unfolding status_row
  set_status-Spent k status h =
      Spent-map (status_row k status) (λ r. ground arith) (λ r d. ground arith) id rows spent

  -- what a transaction leaves, on each way through its body
  consume_row-Spent :
      (row : ApprovalRow) (token_hash : ℕ) (stage : ApprovalStage) (now : ℕ)
      → Spent id (commit rows (consume_row token_hash stage now row rows)).0
  unfolding consume_row commit
  consume_row-Spent row token_hash stage now =
      ground (arith, spent, set_status-Spent row.approval_id used refl)

  consume-Spent :
      (k token_hash : ℕ) (stage : ApprovalStage) (now : ℕ)
      → Spent id (consume_approval k token_hash stage now rows).0
  unfolding consume_approval
  consume-Spent k token_hash stage now =
      elim (find_approval k rows) as (λ o. Spent id (found o).0) [
        | none ↦ spent
        | some row ↦ consume_row-Spent row token_hash stage now
      ]
    where
      found : Option ApprovalRow → Approvals × Result ApprovalError ℕ
      found o = elim o [
        | none ↦ (rows, raise ApprovalError.not_found)
        | some row ↦ commit rows (consume_row token_hash stage now row rows)
      ]

  cancel-Spent : (k : ℕ) → Spent id (or_same (cancel_approval k rows) rows)
  unfolding cancel_approval cancel_row
  cancel-Spent k = elim (Option-cases (find_approval k rows)) [
    | inl absent ↦ rw absent spent
    | inr (row, found) ↦
        rw (found, cancel_approval)
          (Spent-map (cancel_row row.signal_id) (λ r. ground arith) (λ r d. ground arith) id rows
            spent)
  ]

  write-Spent : (w : Write) → Spent id (write w rows)
  unfolding write halt_row expire_row
  write-Spent (create k signal_id token_hash stage expires_at) =
      create-Spent k signal_id token_hash stage expires_at
  write-Spent (consume k token_hash stage now) = consume-Spent k token_hash stage now
  write-Spent (cancel k) = cancel-Spent k
  write-Spent halt = Spent-map halt_row (λ r. ground arith) (λ r d. ground arith) id rows spent
  write-Spent (expire now) =
      Spent-map (expire_row now) (λ r. ground arith) (λ r d. ground arith) id rows spent

pub write_all-Spent :
    (ws : List Write) (id : ℕ) (rows : Approvals) → Spent id rows → Spent id (write_all ws rows)
unfolding write_all
write_all-Spent [] id rows h = h
write_all-Spent (w ∷ ws) id rows h = write_all-Spent ws id (write w rows) (write-Spent id rows h w)

consume_row-ok :
    (row : ApprovalRow) (token_hash : ℕ) (stage : ApprovalStage) (now : ℕ) (rows : Approvals)
    (signal : ℕ)
    → (commit rows (consume_row token_hash stage now row rows)).1 ≡ ok signal
    → (commit rows (consume_row token_hash stage now row rows)).0
      ≡ set_status row.approval_id used rows
unfolding consume_row commit
consume_row-ok row token_hash stage now rows signal h = ground arith

set_status-used-Spent :
    (id : ℕ) (rows : Approvals) (row : ApprovalRow)
    → find_approval id rows ≡ some row
    → Spent id (set_status row.approval_id used rows)
unfolding Spent status_row
set_status-used-Spent id rows row found = (
  status_row row.approval_id used row,
  find-map (status_row row.approval_id used) (λ r. ground arith) id rows row found,
  ground arith,
)

-- A successful call marks the row that it read.
consume-ok-Spent :
    (id token_hash : ℕ) (stage : ApprovalStage) (now : ℕ) (rows : Approvals) (signal : ℕ)
    → (consume_approval id token_hash stage now rows).1 ≡ ok signal
    → Spent id (consume_approval id token_hash stage now rows).0
unfolding consume_approval
consume-ok-Spent id token_hash stage now rows signal h =
    elim (Option-cases (find_approval id rows)) [
      | inl absent ↦ cc (rw (absent, consume_approval) at h)
      | inr (row, found) ↦
          rw (found, consume_approval) (marked row found (rw (found, consume_approval) at h))
    ]
  where
    marked :
        (row : ApprovalRow)
        → find_approval id rows ≡ some row
        → (commit rows (consume_row token_hash stage now row rows)).1 ≡ ok signal
        → Spent id (commit rows (consume_row token_hash stage now row rows)).0
    marked row found h =
        subst (Spent id) (sym (consume_row-ok row token_hash stage now rows signal h))
          (set_status-used-Spent id rows row found)

-- A row that is not active is never consumed.
Spent-consume :
    (id token_hash : ℕ) (stage : ApprovalStage) (now : ℕ) (rows : Approvals)
    → Spent id rows
    → (signal : ℕ) → (consume_approval id token_hash stage now rows).1 ≢ ok signal
unfolding Spent consume_approval consume_row commit
Spent-consume id token_hash stage now rows (row, found, done) signal h =
    ground (arith, rw (found, consume_approval) at h)

-- An approval is consumed at most once: after a call that has consumed it, through any sequence
-- of creations, consumptions, cancellations, halts and expirations, no call consumes it again,
-- with whatever token, stage and time.
pub consume-once :
    (id token_hash : ℕ) (stage : ApprovalStage) (now : ℕ) (rows : Approvals) (signal : ℕ)
    → (consume_approval id token_hash stage now rows).1 ≡ ok signal
    → (later : List Write) (token_hash' : ℕ) (stage' : ApprovalStage) (now' signal' : ℕ)
    → (consume_approval id token_hash' stage' now'
        (write_all later (consume_approval id token_hash stage now rows).0)).1
      ≢ ok signal'
consume-once id token_hash stage now rows signal h later token_hash' stage' now' signal' =
    Spent-consume id token_hash' stage' now' _
      (write_all-Spent later id _ (consume-ok-Spent id token_hash stage now rows signal h)) signal'
