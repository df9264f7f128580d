-- ===== src/Store/Fills/Laws.antt =====
-- Applying cumulative fills: what a report leaves, a report that comes again, and many reports.
use jh_holdings.Prelude.{
  ℕ, ◌-◌, ◌≤◌, ◌≡◌, ◌⊎◌, refl, sym, subst, ap, ◌∙◌, inl, inr, String, Option, none, some,
  some-injective, List, [], ◌∷◌, Bool, true, false, ◌&&◌, ltb, ◌==◌, arith, if◌then◌else◌, str_eq,
  eq_iff, ok, Bool-cases, ok-injective, >>=-eq-ok, raise_if-eq-ok,
}
use jh_holdings.Decimal.{Decimal, of_ℕ, ◌⊖◌, less, same, ◌≈◌}
use jh_holdings.Decimal.Mean.{≈-refl, ≈_trans, ≈_of_same, same_of_≈, ⊖-self, ≈_of_⊖-zero}
use jh_holdings.Decimal.Laws.{⊖_mono}
use jh_holdings.Orders.Ledger.{OrderRow, find_order}
use jh_holdings.Store.Fills.{
  CoreRow, Progress, CoreTables, missing_core, quantity_shrinks, notional_shrinks, find_core,
  put_core, find_progress, upsert, progress_or_none, progress_of, notional_of, needed, Holding,
  next_holding, held_row, written, apply_delta, apply_order, apply_core_fill, is_unapplied,
}

-- What an accepted report came through.
pub apply_order-eq-ok :
    (order : OrderRow) (tables after : CoreTables)
    → apply_order order tables ≡ ok after
    → (row : CoreRow) × (find_core order.symbol tables.cores ≡ some row)
      × ((progress_of order.client_order_id tables.progress).applied_filled_qty ≤ order.filled_qty)
      × (apply_delta order
            (notional_of order)
            (progress_of order.client_order_id tables.progress)
            row
            tables
          ≡ ok after)
unfolding apply_order
apply_order-eq-ok order tables after h =
    let (t, rest) =
      raise_if-eq-ok
        (ltb order.filled_qty
          (progress_of order.client_order_id tables.progress).applied_filled_qty)
        quantity_shrinks _ h in
    let (row, found, done) =
      >>=-eq-ok (needed (find_core order.symbol tables.cores) missing_core) _ rest in
    (row, of_needed (find_core order.symbol tables.cores) row found, ground arith, done)
  where
    of_needed : (o : Option CoreRow) (row : CoreRow) → needed o missing_core ≡ ok row → o ≡ some row
    of_needed none row e = cc
    of_needed (some r) row e = cc

-- Either nothing was new, or the part that was new is written.
pub apply_delta-cases :
    (order : OrderRow) (notional : Decimal) (p : Progress) (row : CoreRow)
    (tables after : CoreTables)
    → apply_delta order notional p row tables ≡ ok after
    → ((order.filled_qty ≡ p.applied_filled_qty)
        × (notional ≈ p.applied_notional)
        × (tables ≡ after))
      ⊎ ((h : Holding) × (next_holding order.side row
              (order.filled_qty - p.applied_filled_qty)
              (notional ⊖ p.applied_notional)
            ≡ ok h)
          × (written order notional row h tables ≡ after))
unfolding apply_delta
apply_delta-cases order notional p row tables after h =
    let (t, rest) =
      raise_if-eq-ok
        (ltb p.applied_filled_qty order.filled_qty && less (notional ⊖ p.applied_notional) (of_ℕ 0))
        notional_shrinks _ h in
    elim (Bool-cases
      (order.filled_qty == p.applied_filled_qty && same (notional ⊖ p.applied_notional) (of_ℕ 0))) [
        | inl settled ↦ inl (
          ground arith,
          ≈_of_⊖-zero notional p.applied_notional
              (≈_of_same (notional ⊖ p.applied_notional) (of_ℕ 0) (ground arith)),
          ok-injective (rw settled at rest),
        )
        | inr new ↦
            let (held, e, w) =
              >>=-eq-ok
                (next_holding order.side row (order.filled_qty - p.applied_filled_qty)
                  (notional ⊖ p.applied_notional))
                _ (rw new at rest) in
            inr (held, e, ok-injective w)
      ]

pub find-upsert :
    (new : Progress) (table : List Progress)
    → find_progress new.client_order_id (upsert new table) ≡ some new
unfolding find_progress upsert
find-upsert new [] = ground arith
find-upsert new (p ∷ rest) = ground (arith, find-upsert new rest)

find_core-symbol :
    (symbol : String) (rows : List CoreRow) (row : CoreRow)
    → find_core symbol rows ≡ some row
    → str_eq row.symbol symbol ≡ true
unfolding find_core
find_core-symbol symbol [] row e = cc
find_core-symbol symbol (r ∷ rest) row e = elim (Bool-cases (str_eq r.symbol symbol)) [
  | inl h ↦
      subst (λ (x : CoreRow). str_eq x.symbol symbol ≡ true) (some-injective _ _ (rw h at e)) h
  | inr h ↦ find_core-symbol symbol rest row (rw h at e)
]

find-put_core :
    (symbol : String) (rows : List CoreRow) (row new : CoreRow)
    → find_core symbol rows ≡ some row
    → new.symbol ≡ symbol
    → find_core symbol (put_core new rows) ≡ some new
unfolding find_core put_core
find-put_core symbol [] row new e h = cc
find-put_core symbol (r ∷ rest) row new e h = elim (Bool-cases (str_eq r.symbol symbol)) [
  | inl here ↦
      rw (test here)
        (found (subst (λ s. str_eq s symbol ≡ true) (sym h) ((eq_iff symbol symbol).1 refl)))
  | inr other ↦ rw (test other, other) (find-put_core symbol rest row new (rw other at e) h)
]
  where
    test : {b : Bool} → str_eq r.symbol symbol ≡ b → str_eq r.symbol new.symbol ≡ b
    test {b} e = subst (λ s. str_eq r.symbol s ≡ b) (sym h) e

    found :
        str_eq new.symbol symbol ≡ true
        → (if str_eq new.symbol symbol then some new else find_core symbol rest) ≡ some new
    found e = rw e refl

-- What the tables say of an order once a report of it has been accepted.
pub record Reported (order : OrderRow) (tables : CoreTables) : Type 0 where
  pub row : CoreRow
  pub held : find_core order.symbol tables.cores ≡ some row
  pub counted :
      (progress_of order.client_order_id tables.progress).applied_filled_qty ≡ order.filled_qty
  pub valued :
      notional_of order ≈ (progress_of order.client_order_id tables.progress).applied_notional

pub written-find :
    (order : OrderRow) (notional : Decimal) (row : CoreRow) (h : Holding) (tables : CoreTables)
    → find_core order.symbol tables.cores ≡ some row
    → find_core order.symbol (written order notional row h tables).cores ≡ some (held_row h row)
written-find order notional row h tables found =
    find-put_core order.symbol tables.cores row (held_row h row) found
      ((eq_iff row.symbol order.symbol).0 (find_core-symbol order.symbol tables.cores row found))

pub written-progress :
    (order : OrderRow) (notional : Decimal) (row : CoreRow) (h : Holding) (tables : CoreTables)
    → progress_of order.client_order_id (written order notional row h tables).progress ≡ record {
      client_order_id = order.client_order_id;
      applied_filled_qty = order.filled_qty;
      applied_notional = notional;
    }
written-progress order notional row h tables = ap (progress_or_none order.client_order_id) (
    find-upsert
      (record {
        client_order_id = order.client_order_id;
        applied_filled_qty = order.filled_qty;
        applied_notional = notional;
      })
      tables.progress)

pub apply_order-Reported :
    (order : OrderRow) (tables after : CoreTables)
    → apply_order order tables ≡ ok after
    → Reported order after
apply_order-Reported order tables after h =
    let (row, found, grown, done) = apply_order-eq-ok order tables after h in
    elim (apply_delta-cases order (notional_of order) _ row tables after done) [
      | inl (count, value, unchanged) ↦
          subst (Reported order) unchanged
            (record { row = row; held = found; counted = sym count; valued = value })
      | inr (held, e, w) ↦ subst (Reported order) w (record {
        row = held_row held row;
        held = written-find order (notional_of order) row held tables found;
        counted =
            ap (λ (p : Progress). p.applied_filled_qty)
              (written-progress order (notional_of order) row held tables);
        valued =
            subst (λ (p : Progress). notional_of order ≈ p.applied_notional)
              (sym (written-progress order (notional_of order) row held tables))
              (≈-refl (notional_of order));
      })
    ]

apply_delta-settled :
    (order : OrderRow) (notional : Decimal) (p : Progress) (row : CoreRow) (tables : CoreTables)
    → p.applied_filled_qty ≡ order.filled_qty
    → same (notional ⊖ p.applied_notional) (of_ℕ 0) ≡ true
    → apply_delta order notional p row tables ≡ ok tables
unfolding apply_delta
apply_delta-settled order notional p row tables count value =
    let no_more : ltb p.applied_filled_qty order.filled_qty ≡ false = ground arith in
    let equal : (order.filled_qty == p.applied_filled_qty) ≡ true = ground arith in
    rw (no_more, equal, value) refl

-- A report that is in the tables changes nothing.
pub Reported-apply_order :
    (order : OrderRow) (tables : CoreTables)
    → Reported order tables
    → apply_order order tables ≡ ok tables
unfolding apply_order
Reported-apply_order order tables r =
    let grown : ltb order.filled_qty
          (progress_of order.client_order_id tables.progress).applied_filled_qty
        ≡ false =
      ground (arith, r.counted) in
    let zero : same
          (notional_of order ⊖ (progress_of order.client_order_id tables.progress).applied_notional)
          (of_ℕ 0)
        ≡ true =
      same_of_≈ _ (of_ℕ 0) (
        ≈_trans _ _ _ (difference (notional_of order) _ r.valued)
          (⊖-self (progress_of order.client_order_id tables.progress).applied_notional)) in
    rw (grown, r.held) (apply_delta-settled order (notional_of order) _ r.row tables r.counted zero)
  where
    difference : (a b : Decimal) → a ≈ b → a ⊖ b ≈ b ⊖ b
    difference a b (p, q) = (⊖_mono a b b p, ⊖_mono b a b q)

apply_order-orders :
    (order : OrderRow) (tables after : CoreTables)
    → apply_order order tables ≡ ok after
    → after.orders ≡ tables.orders
apply_order-orders order tables after h =
    let (row, found, grown, done) = apply_order-eq-ok order tables after h in
    elim (apply_delta-cases order (notional_of order) _ row tables after done) [
      | inl (count, value, unchanged) ↦ ap (λ (t : CoreTables). t.orders) (sym unchanged)
      | inr (held, e, w) ↦ ap (λ (t : CoreTables). t.orders) (sym w)
    ]

-- After `apply_core_fill` has returned for an order, the order is no longer among those with an
-- unapplied fill, and the same call returns the same tables again.
pub apply_core_fill-twice :
    (id : ℕ) (order : OrderRow) (tables after : CoreTables)
    → find_order id tables.orders ≡ some order
    → apply_core_fill id tables ≡ ok after
    → (apply_core_fill id after ≡ ok after)
      × (is_unapplied order (progress_of order.client_order_id after.progress) ≡ false)
unfolding apply_core_fill is_unapplied
apply_core_fill-twice id order tables after found h =
    let done : apply_order order tables ≡ ok after = rw found at h in
    let reported = apply_order-Reported order tables after done in
    let there : find_order id after.orders ≡ some order =
      ap (find_order id) (apply_order-orders order tables after done) ∙ found in
    let valued : same (notional_of order)
          (progress_of order.client_order_id after.progress).applied_notional
        ≡ true =
      same_of_≈ _ _ reported.valued in
    let counted : (order.filled_qty
          == (progress_of order.client_order_id after.progress).applied_filled_qty)
        ≡ true =
      ground (arith, reported.counted) in
    (rw there (Reported-apply_order order after reported), rw (counted, valued) refl)
