-- ===== src/Store/Releases/Laws.antt =====
-- What the intents to release cash keep: the sweep of `pending_cash_release_intents`, and what the
-- other signals reserve.
use jh_holdings.Prelude.{
  ℕ, ◌≡◌, refl, ap, ◌∙◌, ◌⊎◌, inl, inr, Option, some, List, [], ◌∷◌, ◌++◌, map, any, Bool, true,
  false, ◌&&◌, leb, ◌==◌, arith, All, All-map, Result, ok, raise, Bool-cases, Option-cases,
}
use jh_holdings.Decimal.{Decimal, total}
use jh_holdings.Store.Approvals.{Approvals, expire_row}
use jh_holdings.Store.Releases.{
  IntentStatus, is_waiting, is_open, IntentRow, IntentError, Intents, find_intent, on_conflict,
  of_signal, new_intent, upsert_cash_release_intent, approval_is_spent, cancel_spent, expire_intent,
  insert_intent, waiting_by_age, pending_cash_release_intents, is_reserved, reserved_amounts,
  reserved_cash_release_amount, with_status, update_cash_release_intent,
}

-- The intent is closed, or it has not expired and waits for the sale, or for a buy whose approval
-- is not spent.
pub IsSettled : (now : ℕ) → Approvals → IntentRow → Type 0
IsSettled now approvals row =
    (is_open row.status ≡ false)
    ⊎ ((leb now row.expires_at ≡ true)
        × ((is_waiting row.status ≡ true)
            ⊎ (approval_is_spent approvals row.execution_approval_id ≡ false)))

settle-IsSettled :
    (now : ℕ) (approvals : Approvals) (row : IntentRow)
    → IsSettled now approvals (expire_intent now (cancel_spent approvals row))
unfolding IsSettled cancel_spent expire_intent
settle-IsSettled now approvals row = ground arith

settle_rows-IsSettled :
    (now : ℕ) (approvals : Approvals) (rows : Intents)
    → All (IsSettled now approvals) (map (expire_intent now) (map (cancel_spent approvals) rows))
settle_rows-IsSettled now approvals [] = tt
settle_rows-IsSettled now approvals (row ∷ rows) =
    (settle-IsSettled now approvals row, settle_rows-IsSettled now approvals rows)

-- the intent of a signal waits for the sale and has not expired
abbrev pub is_due : (id now : ℕ) → IntentRow → Bool
is_due id now row = row.signal_id == id && (is_waiting row.status && leb now row.expires_at)

abbrev pub has_signal : ℕ → IntentRow → Bool
has_signal id row = row.signal_id == id

settle-is_due :
    (id now : ℕ) (approvals : Approvals) (row : IntentRow)
    → is_due id now (expire_intent now (cancel_spent approvals row)) ≡ is_due id now row
unfolding cancel_spent expire_intent
settle-is_due id now approvals row = ground arith

any-insert :
    (id : ℕ) (row : IntentRow) (rows : Intents)
    → any (has_signal id) (insert_intent row rows) ≡ any (has_signal id) (row ∷ rows)
unfolding insert_intent
any-insert id row [] = refl
any-insert id row (next ∷ rest) = ground (arith, any-insert id row rest)

any-waiting :
    (id now : ℕ) (rows : Intents)
    → any (has_signal id) (waiting_by_age now rows) ≡ any (is_due id now) rows
unfolding waiting_by_age
any-waiting id now [] = refl
any-waiting id now (row ∷ rest) =
    ground (arith, any-waiting id now rest, any-insert id row (waiting_by_age now rest))

any-settle :
    (id now : ℕ) (approvals : Approvals) (rows : Intents)
    → any (is_due id now) (map (expire_intent now) (map (cancel_spent approvals) rows))
      ≡ any (is_due id now) rows
any-settle id now approvals [] = refl
any-settle id now approvals (row ∷ rows) =
    ground (arith, settle-is_due id now approvals row, any-settle id now approvals rows)

pub After : ℕ → IntentRow → Type 0
After time row = leb time row.created_at ≡ true

-- The oldest intent stands first.
pub IsByAge : Intents → Type 0
IsByAge [] = Unit
IsByAge (row ∷ rest) = All (After row.created_at) rest × IsByAge rest

All-insert :
    (time : ℕ) (row : IntentRow) (rows : Intents)
    → After time row
    → All (After time) rows
    → All (After time) (insert_intent row rows)
unfolding insert_intent
All-insert time row [] p ps = (p, tt)
All-insert time row (next ∷ rest) p ps = elim (Bool-cases (leb row.created_at next.created_at)) [
  | inl h ↦ rw (h, insert_intent) (p, ps)
  | inr h ↦ rw (h, insert_intent) (ps.0, All-insert time row rest p ps.1)
]

insert-IsByAge :
    (row : IntentRow) (rows : Intents) → IsByAge rows → IsByAge (insert_intent row rows)
unfolding insert_intent IsByAge After
insert-IsByAge row [] sorted = (tt, tt)
insert-IsByAge row (next ∷ rest) sorted = elim (Bool-cases (leb row.created_at next.created_at)) [
  | inl h ↦ rw (h, insert_intent) ((h, All-map rest (λ r later. ground arith) sorted.0), sorted)
  | inr h ↦
      rw (h, insert_intent)
        (
          All-insert next.created_at row rest (ground arith) sorted.0,
          insert-IsByAge row rest sorted.1,
        )
]

waiting-IsByAge : (now : ℕ) (rows : Intents) → IsByAge (waiting_by_age now rows)
unfolding waiting_by_age IsByAge
waiting-IsByAge now [] = tt
waiting-IsByAge now (row ∷ rest) = ground (
  arith,
  waiting-IsByAge now rest,
  insert-IsByAge row (waiting_by_age now rest) (waiting-IsByAge now rest),
)

-- After the sweep of the cash-release intents at a time, every intent is closed, or has not
-- expired and waits for the sale or has an approval that is not spent; the sweep returns an
-- intent of a signal exactly where one of it waited and had not expired before, and the oldest
-- first.
pub pending-IsSettled :
    (now : ℕ) (approvals : Approvals) (rows : Intents) (id : ℕ)
    → All
        (IsSettled now (pending_cash_release_intents now approvals rows).approvals)
        (pending_cash_release_intents now approvals rows).intents
      × ((any (has_signal id) (pending_cash_release_intents now approvals rows).returned
            ≡ any (is_due id now) rows)
          × IsByAge (pending_cash_release_intents now approvals rows).returned)
unfolding pending_cash_release_intents
pending-IsSettled now approvals rows id =
    let checked = map (expire_row now) approvals in
    (
      settle_rows-IsSettled now checked rows,
      (any-waiting id now _ ∙ any-settle id now checked rows, waiting-IsByAge now _),
    )

-- A write of one signal's intent.
pub data IntentWrite : Type 0 where
  upsert : (required_amount : Decimal) (expires_at now : ℕ) → IntentWrite
  update : (status : IntentStatus) (approval : Option ℕ) → IntentWrite

abbrev or_same : Result IntentError Intents → Intents → Intents
or_same (ok rows') rows = rows'
or_same (raise e) rows = rows

unfoldable pub write_intents : (id : ℕ) → List IntentWrite → Intents → Intents
write_intents id [] rows = rows
write_intents id (upsert amount expires_at now ∷ writes) rows =
    write_intents id writes (upsert_cash_release_intent id amount expires_at now rows)
write_intents id (update status approval ∷ writes) rows =
    write_intents id writes (or_same (update_cash_release_intent id status approval rows) rows)

-- a change of a signal's row changes nothing of what the others reserve
module _ (id now : ℕ) where
  reserved-map :
      (change : IntentRow → IntentRow)
      → ((row : IntentRow) → (change row).signal_id ≡ row.signal_id)
      → (rows : Intents)
      → reserved_amounts (some id) now (map (of_signal id change) rows)
        ≡ reserved_amounts (some id) now rows
  unfolding reserved_amounts is_reserved
  reserved-map change keeps [] = refl
  reserved-map change keeps (row ∷ rows) = ground (arith, keeps row, reserved-map change keeps rows)

  reserved-append :
      (row : IntentRow) (rows : Intents)
      → row.signal_id ≡ id
      → reserved_amounts (some id) now (rows ++ row ∷ []) ≡ reserved_amounts (some id) now rows
  unfolding reserved_amounts is_reserved
  reserved-append row [] h = ground arith
  reserved-append row (r ∷ rows) h = ground (arith, reserved-append row rows h)

  upsert-reserved :
      (amount : Decimal) (expires_at created : ℕ) (rows : Intents)
      → reserved_amounts
          (some id)
          now
          (upsert_cash_release_intent id amount expires_at created rows)
        ≡ reserved_amounts (some id) now rows
  unfolding upsert_cash_release_intent on_conflict
  upsert-reserved amount expires_at created rows = elim (Option-cases (find_intent id rows)) [
    | inl absent ↦
        rw (absent, upsert_cash_release_intent)
          (reserved-append (new_intent id amount expires_at created) rows refl)
    | inr (row, found) ↦
        rw (found, upsert_cash_release_intent)
          (reserved-map (on_conflict amount expires_at) (λ r. refl) rows)
  ]

  update-reserved :
      (status : IntentStatus) (approval : Option ℕ) (rows : Intents)
      → reserved_amounts
          (some id)
          now
          (or_same (update_cash_release_intent id status approval rows) rows)
        ≡ reserved_amounts (some id) now rows
  unfolding update_cash_release_intent with_status
  update-reserved status approval rows = elim (Option-cases (find_intent id rows)) [
    | inl absent ↦ rw (absent, or_same) refl
    | inr (row, found) ↦
        rw (found, or_same) (reserved-map (with_status status approval) (λ r. refl) rows)
  ]

  written-reserved :
      (writes : List IntentWrite) (rows : Intents)
      → reserved_amounts (some id) now (write_intents id writes rows)
        ≡ reserved_amounts (some id) now rows
  unfolding write_intents
  written-reserved [] rows = refl
  written-reserved (upsert amount expires_at created ∷ writes) rows =
      written-reserved writes (upsert_cash_release_intent id amount expires_at created rows)
      ∙ upsert-reserved amount expires_at created rows
  written-reserved (update status approval ∷ writes) rows =
      written-reserved writes (or_same (update_cash_release_intent id status approval rows) rows)
      ∙ update-reserved status approval rows

  -- Through any sequence of openings and updates of the cash-release intent of one signal,
  -- raising or not, the amount that the other signals reserve stays the same.
  pub write_intents-reserved :
      (writes : List IntentWrite) (rows : Intents)
      → reserved_cash_release_amount (some id) now (write_intents id writes rows)
        ≡ reserved_cash_release_amount (some id) now rows
  unfolding reserved_cash_release_amount
  write_intents-reserved writes rows = ap total (written-reserved writes rows)
