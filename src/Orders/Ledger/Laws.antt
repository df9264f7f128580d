-- ===== src/Orders/Ledger/Laws.antt =====
-- Lookups after each write, and what one update may do to a row.
use jh_holdings.Prelude.{
  ℕ, ◌≤◌, ◌≡◌, refl, Option, none, some, [], ◌∷◌, ◌++◌, true, false, not, ◌&&◌, ltb, ◌==◌, arith,
  if◌then◌else◌, ok, >>=-eq-ok, raise_if-eq-ok, ok-injective, subst, ◌∙◌, sym,
}
use jh_holdings.Decimal.{Decimal}
use jh_holdings.Orders.Ledger.{
  is_terminal, is_supported, same_status, OrderRow, Table, find_order, put_order, Update,
  update_row, updated_row, check_fill, update_order, or_missing, unsupported_status,
  terminal_reverted, fill_shrinks, fill_exceeds,
}

pub find_order-id :
    (id : ℕ) (t : Table) (row : OrderRow) → find_order id t ≡ some row → row.client_order_id ≡ id
unfolding find_order
find_order-id id [] row e = cc
find_order-id id (r ∷ t) row e = ground (arith, find_order-id id t row)

pub find-put :
    (new : OrderRow) (t : Table) (j : ℕ) (old : OrderRow)
    → find_order new.client_order_id t ≡ some old
    → find_order j (put_order new t)
      ≡ (if new.client_order_id == j then some new else find_order j t)
unfolding find_order put_order
find-put new [] j old e = cc
find-put new (r ∷ t) j old e = ground (arith, find-put new t j old)

pub find-append :
    (new : OrderRow) (t : Table) (j : ℕ) (row : OrderRow)
    → find_order j t ≡ some row
    → find_order j (t ++ new ∷ []) ≡ some row
unfolding find_order
find-append new [] j row e = cc
find-append new (r ∷ t) j row e = ground (arith, find-append new t j row)

pub find-append_new :
    (new : OrderRow) (t : Table)
    → find_order new.client_order_id t ≡ none
    → find_order new.client_order_id (t ++ new ∷ []) ≡ some new
unfolding find_order
find-append_new new [] e = ground arith
find-append_new new (r ∷ t) e = ground (arith, find-append_new new t)

-- What no write may take back from a row: its identity, a terminal status, its fills, its
-- application and the bound of its fills.
pub record Keeps (old new : OrderRow) : Type 0 where
  pub id : new.client_order_id ≡ old.client_order_id
  pub symbol : new.symbol ≡ old.symbol
  pub side : new.side ≡ old.side
  pub qty : new.qty ≡ old.qty
  pub terminal : is_terminal old.status ≡ true → new.status ≡ old.status
  pub fills : old.filled_qty ≤ new.filled_qty
  pub bounded : old.filled_qty ≤ old.qty → new.filled_qty ≤ new.qty
  pub applied : old.applied ≡ true → new.applied ≡ true

pub Keeps-refl : (row : OrderRow) → Keeps row row
Keeps-refl row = ground arith

pub Keeps-trans : (a b c : OrderRow) → Keeps a b → Keeps b c → Keeps a c
Keeps-trans a b c p q = record {
  id = q.id ∙ p.id;
  symbol = q.symbol ∙ p.symbol;
  side = q.side ∙ p.side;
  qty = q.qty ∙ p.qty;
  terminal = λ h. q.terminal (rw (p.terminal h) h) ∙ p.terminal h;
  fills = omega (arith, p.fills, q.fills);
  bounded = λ h. q.bounded (p.bounded h);
  applied = λ h. q.applied (p.applied h);
}

check_fill-bounds :
    (n : ℕ) (price : Option Decimal) (row : OrderRow)
    → check_fill (some n) price row ≡ ok tt
    → (row.filled_qty ≤ n) × (n ≤ row.qty)
check_fill-bounds n price row e =
    let (grows, e1) = raise_if-eq-ok (ltb n row.filled_qty) fill_shrinks _ e in
    let (fits, _) = raise_if-eq-ok (ltb row.qty n) fill_exceeds _ e1 in (ground arith, ground arith)

updated_row-Keeps :
    (n : Option ℕ) (u : Update) (row : OrderRow)
    → u.filled_qty ≡ n
    → (is_terminal row.status && not (same_status u.status row.status)) ≡ false
    → check_fill n u.average_fill_price row ≡ ok tt
    → Keeps row (updated_row u row)
unfolding updated_row
updated_row-Keeps none u row given same checked = ground arith
updated_row-Keeps (some n) u row given same checked =
    ground (arith, check_fill-bounds n u.average_fill_price row)

pub update_row-Keeps : (u : Update) (row new : OrderRow) → update_row u row ≡ ok new → Keeps row new
unfolding update_row
update_row-Keeps u row new e =
    let (same, e1) =
      raise_if-eq-ok (is_terminal row.status && not (same_status u.status row.status))
        terminal_reverted _ e in
    let (unit, checked, e2) = >>=-eq-ok (check_fill u.filled_qty u.average_fill_price row) _ e1 in
    subst (Keeps row) (ok-injective e2) (updated_row-Keeps u.filled_qty u row refl same checked)

-- An update that returns has replaced the row of its id by what `update_row` makes of it.
pub update_order-row :
    (id : ℕ) (u : Update) (t t' : Table)
    → update_order id u t ≡ ok t'
    → (row : OrderRow) × (new : OrderRow) × (find_order id t ≡ some row)
      × (update_row u row ≡ ok new)
      × (t' ≡ put_order new t)
unfolding update_order
update_order-row id u t t' e =
    let (_, e1) = raise_if-eq-ok (not (is_supported u.status)) unsupported_status _ e in
    let (row, found, e2) = >>=-eq-ok (or_missing (find_order id t)) _ e1 in
    let (new, done, e3) = >>=-eq-ok (update_row u row) _ e2 in
    (row, new, or_missing-eq-ok (find_order id t) row found, done, sym (ok-injective e3))
  where
    or_missing-eq-ok : (o : Option OrderRow) (row : OrderRow) → or_missing o ≡ ok row → o ≡ some row
    or_missing-eq-ok none row e = cc
    or_missing-eq-ok (some r) row e = cc
