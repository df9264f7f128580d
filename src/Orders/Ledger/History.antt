-- ===== src/Orders/Ledger/History.antt =====
-- Any sequence of writes to the `orders` table.
use jh_holdings.Prelude.{
  ℕ, ◌≡◌, refl, inl, inr, Option, none, some, List, [], ◌∷◌, true, false, ◌==◌, arith, Result, ok,
  raise, Bool-cases, Option-cases, ◌∙◌, sym, subst,
}
use jh_holdings.Orders.Ledger.{
  OrderRow, Table, LedgerError, find_order, put_order, reserve_order, Update, update_order,
  mark_order_applied, apply_once,
}
use jh_holdings.Orders.Ledger.Laws.{
  Keeps, Keeps-refl, Keeps-trans, find-put, find-append, update_row-Keeps, update_order-row,
  find_order-id,
}

pub data Write : Type 0 where
  reserve : OrderRow → Write
  update : ℕ → Update → Write
  mark_applied : ℕ → Write

-- a raise leaves the table as it was
abbrev pub or_rollback : Result LedgerError Table → Table → Table
or_rollback (ok t') t = t'
or_rollback (raise e) t = t

unfoldable pub write : Write → Table → Table
write (reserve row) t = (reserve_order row t).0
write (update id u) t = or_rollback (update_order id u t) t
write (mark_applied id) t = (mark_order_applied id t).0

unfoldable pub write_all : List Write → Table → Table
write_all [] t = t
write_all (w ∷ ws) t = write_all ws (write w t)

-- The row of `id` is still there, and nothing that `Keeps` lists was taken back.
abbrev pub Kept : ℕ → OrderRow → Table → Type 0
Kept id old t = (new : OrderRow) × (find_order id t ≡ some new) × Keeps old new

put_order-Kept :
    (t : Table) (row new : OrderRow) (id : ℕ) (old : OrderRow)
    → find_order new.client_order_id t ≡ some row
    → Keeps row new
    → find_order id t ≡ some old
    → Kept id old (put_order new t)
put_order-Kept t row new id old there keeps found = elim (Bool-cases (new.client_order_id == id)) [
  | inl e ↦
      let same : new.client_order_id ≡ id = ground arith in
      let there' : find_order id t ≡ some row = subst (λ n. find_order n t ≡ some row) same there in
      let equal : row ≡ old = cc in
      (new, find-put new t id row there ∙ rw e, subst (λ r. Keeps r new) equal keeps)
  | inr e ↦ (old, find-put new t id row there ∙ rw e found, Keeps-refl old)
]

applied-Keeps : (row : OrderRow) → Keeps row (record row { applied = true })
applied-Keeps row = ground arith

module _ (t : Table) (id : ℕ) (old : OrderRow) (found : find_order id t ≡ some old) where
  reserve-Kept : (new : OrderRow) → Kept id old (reserve_order new t).0
  unfolding reserve_order
  reserve-Kept new = elim (Option-cases (find_order new.client_order_id t)) [
    | inl free ↦ rw free (old, find-append new t id old found, Keeps-refl old)
    | inr (row, taken) ↦ rw taken (old, found, Keeps-refl old)
  ]

  update-Kept : (k : ℕ) (u : Update) → Kept id old (or_rollback (update_order k u t) t)
  update-Kept k u = go (update_order k u t) refl
    where
      go : (r : Result LedgerError Table) → update_order k u t ≡ r → Kept id old (or_rollback r t)
      go (raise x) e = (old, found, Keeps-refl old)
      go (ok t') e =
          let (row, new, there, done, now) = update_order-row k u t t' e in
          let keeps = update_row-Keeps u row new done in
          let at : find_order new.client_order_id t ≡ some row =
            subst (λ n. find_order n t ≡ some row) (sym (keeps.id ∙ find_order-id k t row there))
              there in
          rw now (put_order-Kept t row new id old at keeps found)

  mark_applied-Kept : (k : ℕ) → Kept id old (mark_order_applied k t).0
  unfolding mark_order_applied
  mark_applied-Kept k = elim (Option-cases (find_order k t)) [
    | inl absent ↦ rw absent (old, found, Keeps-refl old)
    | inr (row, there) ↦ elim (Bool-cases row.applied) [
      | inl done ↦ rw (there, done) (old, found, Keeps-refl old)
      | inr todo ↦
          let at : find_order row.client_order_id t ≡ some row =
            subst (λ n. find_order n t ≡ some row) (sym (find_order-id k t row there)) there in
          rw (there, todo)
            (put_order-Kept t row (record row { applied = true }) id old at (applied-Keeps row)
              found)
    ]
  ]

  write-Kept : (w : Write) → Kept id old (write w t)
  unfolding write
  write-Kept (reserve new) = reserve-Kept new
  write-Kept (update k u) = update-Kept k u
  write-Kept (mark_applied k) = mark_applied-Kept k

-- Through any sequence of reservations, updates and applications, raising or not, an order that
-- the ledger has stays there under its id, symbol, side and quantity; a terminal status is
-- final, its cumulative fill never falls and, once within its quantity, stays within it, and an
-- application is not undone.
pub write_all-Kept :
    (ws : List Write) (t : Table) (id : ℕ) (old : OrderRow)
    → find_order id t ≡ some old
    → Kept id old (write_all ws t)
unfolding write_all
write_all-Kept [] t id old found = (old, found, Keeps-refl old)
write_all-Kept (w ∷ ws) t id old found =
    let (mid, there, k) = write-Kept t id old found w in
    let (new, last, k') = write_all-Kept ws (write w t) id mid there in
    (new, last, Keeps-trans old mid new k k')

mark_order_applied-applied :
    (t : Table) (id : ℕ)
    → (mark_order_applied id t).1 ≡ true
    → (row : OrderRow) × (find_order id (mark_order_applied id t).0 ≡ some row)
      × (row.applied ≡ true)
unfolding mark_order_applied
mark_order_applied-applied t id = go (find_order id t) refl
  where
    go :
        (o : Option OrderRow)
        → find_order id t ≡ o
        → (apply_once o t).1 ≡ true
        → (row : OrderRow) × (find_order id (apply_once o t).0 ≡ some row) × (row.applied ≡ true)
    go none absent first = cc
    go (some row) there first = elim (Bool-cases row.applied) [
      | inl done ↦ let no = rw done at first in cc
      | inr todo ↦
          let same = find_order-id id t row there in
          let at = subst (λ n. find_order n t ≡ some row) (sym same) there in
          let put = find-put (record row { applied = true }) t id row at in
          (record row { applied = true }, rw todo (put ∙ ground arith), refl)
    ]

mark_order_applied-again :
    (t : Table) (id : ℕ) (row : OrderRow)
    → find_order id t ≡ some row
    → row.applied ≡ true
    → (mark_order_applied id t).1 ≡ false
unfolding mark_order_applied
mark_order_applied-again t id row there done = rw (there, done) refl

-- An order is applied at most once: after one call has applied it, whatever is written next, a
-- later call does not report that it applied it.
pub mark_order_applied-once :
    (ws : List Write) (t : Table) (id : ℕ)
    → (mark_order_applied id t).1 ≡ true
    → (mark_order_applied id (write_all ws (mark_order_applied id t).0)).1 ≡ false
mark_order_applied-once ws t id first =
    let (row, there, done) = mark_order_applied-applied t id first in
    let (new, last, keeps) = write_all-Kept ws (mark_order_applied id t).0 id row there in
    mark_order_applied-again (write_all ws (mark_order_applied id t).0) id new last
      (keeps.applied done)
