-- ===== src/Store/Fills/Reports.antt =====
-- Many cumulative reports of one buy order.
use jh_holdings.Prelude.{
  ℕ, ◌+◌, ◌≡◌, refl, sym, subst, ap, ◌∙◌, inl, inr, some, some-injective, List, [], ◌∷◌, arith,
  Result, ok, ◌>>=◌, ok-injective, >>=-eq-ok, raise_if-eq-ok,
}
use jh_holdings.Decimal.{Decimal, of_ℕ, ◌⊕◌, ◌⊖◌, less, ◌≈◌}
use jh_holdings.Decimal.Mean.{≈-refl, ≈_trans, ≈_sym, ⊕-⊖_set_off, ≈_of_⊖}
use jh_holdings.Orders.Ledger.{OrderRow, Side, buy}
use jh_holdings.Store.Fills.{
  CoreRow, Progress, CoreTables, FillError, cost_negative, find_core, progress_of, notional_of,
  Holding, next_holding, held_row, apply_order,
}
use jh_holdings.Store.Fills.Laws.{
  apply_order-eq-ok, apply_delta-cases, written-find, written-progress, apply_order-Reported,
}

-- a cumulative quantity at its average price, as the order's row has it
abbrev pub reported : OrderRow → ℕ × Decimal → OrderRow
reported order (n, price) = record order { filled_qty = n; average_fill_price = some price }

unfoldable pub apply_reports :
    OrderRow → List (ℕ × Decimal) → CoreTables → Result FillError CoreTables
apply_reports order [] tables = ok tables
apply_reports order (r ∷ rs) tables =
    apply_order (reported order r) tables >>= apply_reports order rs

-- The shares and the cost that do not come from this order are the same in both tables.
pub record SameRest (order : OrderRow) (before after : CoreTables) : Type 0 where
  pub row : CoreRow
  pub row' : CoreRow
  pub held : find_core order.symbol before.cores ≡ some row
  pub held' : find_core order.symbol after.cores ≡ some row'
  pub shares :
      row'.qty + (progress_of order.client_order_id before.progress).applied_filled_qty
      ≡ row.qty + (progress_of order.client_order_id after.progress).applied_filled_qty
  pub costs :
      row'.cost_basis ⊖ (progress_of order.client_order_id after.progress).applied_notional
      ≈ row.cost_basis ⊖ (progress_of order.client_order_id before.progress).applied_notional

next_holding-buy :
    (side : Side) (row : CoreRow) (delta : ℕ) (notional : Decimal) (h : Holding)
    → side ≡ buy
    → next_holding side row delta notional ≡ ok h
    → (h.quantity ≡ row.qty + delta) × (h.cost ≡ row.cost_basis ⊕ notional)
unfolding next_holding
next_holding-buy Side.sell row delta notional h is e = cc
next_holding-buy buy row delta notional h is e =
    let (t, done) = raise_if-eq-ok (less (row.cost_basis ⊕ notional) (of_ℕ 0)) cost_negative _ e in
    (
      ap (λ (x : Holding). x.quantity) (sym (ok-injective done)),
      ap (λ (x : Holding). x.cost) (sym (ok-injective done)),
    )

pub apply_order-SameRest :
    (order : OrderRow) (tables after : CoreTables)
    → order.side ≡ buy
    → apply_order order tables ≡ ok after
    → SameRest order tables after
apply_order-SameRest order tables after bought h =
    let (row, found, grown, done) = apply_order-eq-ok order tables after h in
    elim (apply_delta-cases order (notional_of order) _ row tables after done) [
      | inl (count, value, unchanged) ↦ subst (SameRest order tables) unchanged (record {
        row = row;
        row' = row;
        held = found;
        held' = found;
        shares = refl;
        costs = ≈-refl _;
      })
      | inr (held, e, w) ↦
          let (q, c) = next_holding-buy order.side row _ _ held bought e in
          let p = written-progress order (notional_of order) row held tables in
          subst (SameRest order tables) w (record {
            row = row;
            row' = held_row held row;
            held = found;
            held' = written-find order (notional_of order) row held tables found;
            shares = omega (arith, q, ap (λ (x : Progress). x.applied_filled_qty) p);
            costs =
                subst
                  (λ (x : Progress).
                    held.cost ⊖ x.applied_notional
                    ≈ row.cost_basis
                      ⊖ (progress_of order.client_order_id tables.progress).applied_notional)
                  (sym p)
                  (subst
                    (λ x.
                      x ⊖ notional_of order
                      ≈ row.cost_basis
                        ⊖ (progress_of order.client_order_id tables.progress).applied_notional)
                    (sym c)
                    (⊕-⊖_set_off row.cost_basis (notional_of order)
                      (progress_of order.client_order_id tables.progress).applied_notional));
          })
    ]

SameRest-trans :
    (order : OrderRow) (a b c : CoreTables)
    → SameRest order a b
    → SameRest order b c
    → SameRest order a c
SameRest-trans order a b c p q =
    let same : p.row' ≡ q.row = some-injective _ _ (sym p.held' ∙ q.held) in
    let cost_same : q.row.cost_basis ≡ p.row'.cost_basis =
      ap (λ (x : CoreRow). x.cost_basis) (sym same) in
    record {
      row = p.row;
      row' = q.row';
      held = p.held;
      held' = q.held';
      shares = omega (arith, p.shares, q.shares, ap (λ (x : CoreRow). x.qty) same);
      costs = ≈_trans _ _ _ q.costs (
          subst
            (λ x.
              x ⊖ (progress_of order.client_order_id b.progress).applied_notional
              ≈ p.row.cost_basis ⊖ (progress_of order.client_order_id a.progress).applied_notional)
            (sym cost_same) p.costs);
    }

apply_reports-SameRest :
    (order : OrderRow) (rs : List (ℕ × Decimal)) (row : CoreRow) (tables after : CoreTables)
    → order.side ≡ buy
    → find_core order.symbol tables.cores ≡ some row
    → apply_reports order rs tables ≡ ok after
    → SameRest order tables after
unfolding apply_reports
apply_reports-SameRest order [] row tables after bought found h =
    subst (SameRest order tables) (ok-injective h) (record {
      row = row;
      row' = row;
      held = found;
      held' = found;
      shares = refl;
      costs = ≈-refl _;
    })
apply_reports-SameRest order (r ∷ rs) row tables after bought found h =
    let (mid, first, rest) =
      >>=-eq-ok (apply_order (reported order r) tables) (apply_reports order rs) h in
    let step =
      as_order r tables mid (apply_order-SameRest (reported order r) tables mid bought first) in
    SameRest-trans order tables mid after step
      (apply_reports-SameRest order rs step.row' mid after bought step.held' rest)
  where
    as_order :
        (r : ℕ × Decimal) (a b : CoreTables) → SameRest (reported order r) a b → SameRest order a b
    as_order r a b s = record {
      row = s.row;
      row' = s.row';
      held = s.held;
      held' = s.held';
      shares = s.shares;
      costs = s.costs;
    }

-- For a buy order, any accepted reports of its cumulative fill followed by a last one come to
-- the same shares, and by value the same cost, as the last report alone, where both are
-- accepted.
pub apply_reports-last :
    (order : OrderRow) (rs : List (ℕ × Decimal)) (last : ℕ × Decimal) (row : CoreRow)
    (tables mid after once : CoreTables)
    → order.side ≡ buy
    → find_core order.symbol tables.cores ≡ some row
    → apply_reports order rs tables ≡ ok mid
    → apply_order (reported order last) mid ≡ ok after
    → apply_order (reported order last) tables ≡ ok once
    → (left : CoreRow) × (right : CoreRow) × (find_core order.symbol after.cores ≡ some left)
      × (find_core order.symbol once.cores ≡ some right)
      × (left.qty ≡ right.qty)
      × (left.cost_basis ≈ right.cost_basis)
apply_reports-last order rs last row tables mid after once bought found many ended at_once =
    let first = apply_reports-SameRest order rs row tables mid bought found many in
    let second = apply_order-SameRest (reported order last) mid after bought ended in
    let direct = apply_order-SameRest (reported order last) tables once bought at_once in
    let done = apply_order-Reported (reported order last) mid after ended in
    let done_once = apply_order-Reported (reported order last) tables once at_once in
    let same_mid : first.row' ≡ second.row = some-injective _ _ (sym first.held' ∙ second.held) in
    let same_start : first.row ≡ direct.row = some-injective _ _ (sym first.held ∙ direct.held) in
    (
      second.row',
      direct.row',
      second.held',
      direct.held',
      omega (
        arith,
        first.shares,
        second.shares,
        direct.shares,
        done.counted,
        done_once.counted,
        ap (λ (x : CoreRow). x.qty) same_mid,
        ap (λ (x : CoreRow). x.qty) same_start,
      ),
      ≈_of_⊖ _ _ _ _
          (≈_trans _ _ _ second.costs (
            subst
              (λ (x : CoreRow).
                x.cost_basis ⊖ (progress_of order.client_order_id mid.progress).applied_notional
                ≈ direct.row'.cost_basis
                  ⊖ (progress_of order.client_order_id once.progress).applied_notional)
              same_mid
              (≈_trans _ _ _ first.costs (
                subst
                  (λ (x : CoreRow).
                    x.cost_basis
                      ⊖ (progress_of order.client_order_id tables.progress).applied_notional
                    ≈ direct.row'.cost_basis
                      ⊖ (progress_of order.client_order_id once.progress).applied_notional)
                  (sym same_start) (≈_sym _ _ direct.costs)))))
          (≈_trans _ _ _ (≈_sym _ _ done.valued) done_once.valued),
    )
