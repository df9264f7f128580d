-- ===== src/Store/IdleFills/Laws.antt =====
-- What a report of a fill does to the managed shares.
use jh_holdings.Prelude.{
  ℕ, ◌+◌, ◌-◌, ◌≤◌, ◌≡◌, sym, subst, ap, ◌∙◌, inl, inr, Option, none, some, not, ltb, arith, ok,
  Bool-cases, ok-injective, >>=-eq-ok, raise_if-eq-ok,
}
use jh_holdings.Decimal.{Decimal, of_ℕ, ◌⊖◌, less}
use jh_holdings.Orders.Ledger.{OrderRow, Side, buy, sell, find_order}
use jh_holdings.Store.Fills.{
  FillError, quantity_shrinks, notional_shrinks, oversold, not_managed, missing_state, Progress,
  progress_or_none, progress_of, notional_of, needed,
}
use jh_holdings.Store.Fills.Laws.{find-upsert}
use jh_holdings.Store.IdleFills.{
  IdleState, IdleTables, is_idle, of_symbol, traded, next_state, progressed, apply_idle_order,
  apply_idle_cash_fill,
}

-- shares that came in, and shares that went out, by one order
abbrev pub Accounted : Side → (before after applied filled : ℕ) → Type 0
Accounted buy before after applied filled = after + applied ≡ before + filled
Accounted sell before after applied filled = after + filled ≡ before + applied

traded-Accounted :
    (side : Side) (delta : ℕ) (notional : Decimal) (s s' : IdleState) (applied : ℕ)
    → traded side delta notional s ≡ ok s'
    → Accounted side s.managed_qty s'.managed_qty applied (applied + delta)
unfolding traded
traded-Accounted buy delta notional s s' applied h =
    omega (arith, ap (λ (x : IdleState). x.managed_qty) (ok-injective h))
traded-Accounted sell delta notional s s' applied h =
    let (enough, done) = raise_if-eq-ok (ltb s.managed_qty delta) oversold _ h in
    let le : delta ≤ s.managed_qty = ground arith in
    omega (arith, ap (λ (x : IdleState). x.managed_qty) (ok-injective done))

unchanged-Accounted :
    (side : Side) (n filled applied : ℕ) → filled ≡ applied → Accounted side n n applied filled
unchanged-Accounted buy n filled applied e = omega arith
unchanged-Accounted sell n filled applied e = omega arith

next_state-Accounted :
    (order : OrderRow) (p : Progress) (s s' : IdleState)
    → p.applied_filled_qty ≤ order.filled_qty
    → next_state order p s ≡ ok s'
    → Accounted order.side s.managed_qty s'.managed_qty p.applied_filled_qty order.filled_qty
unfolding next_state
next_state-Accounted order p s s' grown h =
    elim (Bool-cases (ltb p.applied_filled_qty order.filled_qty)) [
      | inl more ↦
          let (t, done) =
            raise_if-eq-ok (less (notional_of order ⊖ p.applied_notional) (of_ℕ 0)) notional_shrinks
              _ (rw more at h) in
          let total : p.applied_filled_qty + (order.filled_qty - p.applied_filled_qty)
              ≡ order.filled_qty =
            ground arith in
          subst (λ n. Accounted order.side s.managed_qty s'.managed_qty p.applied_filled_qty n)
            total
            (traded-Accounted order.side (order.filled_qty - p.applied_filled_qty) _ s s'
              p.applied_filled_qty done)
      | inr same ↦
          subst
            (λ (x : IdleState).
              Accounted order.side s.managed_qty x.managed_qty p.applied_filled_qty
                order.filled_qty)
            (ok-injective (rw same at h))
            (unchanged-Accounted order.side s.managed_qty order.filled_qty p.applied_filled_qty
              (ground arith))
    ]

of_needed : {A : Type 0} (o : Option A) (a : A) (e : FillError) → needed o e ≡ ok a → o ≡ some a
of_needed none a e h = cc
of_needed (some x) a e h = cc

-- A fill of a managed order that is accepted adds to the managed shares, for a buy, or takes
-- from them, for a sale, exactly what the cumulative fill has grown by, and records that fill as
-- applied.
pub apply_idle_cash_fill-Accounted :
    (id : ℕ) (order : OrderRow) (tables after : IdleTables)
    → find_order id tables.orders ≡ some order
    → apply_idle_cash_fill id tables ≡ ok after
    → (s : IdleState) × (s' : IdleState) × (of_symbol order.symbol tables.state ≡ some s)
      × (after.state ≡ some s')
      × Accounted order.side s.managed_qty s'.managed_qty
          (progress_of order.client_order_id tables.progress).applied_filled_qty
          order.filled_qty
      × ((progress_of order.client_order_id after.progress).applied_filled_qty ≡ order.filled_qty)
unfolding apply_idle_cash_fill apply_idle_order
apply_idle_cash_fill-Accounted id order tables after found h =
    let (t, after_kind) =
      raise_if-eq-ok (not (is_idle order.purpose)) not_managed _ (rw found at h) in
    let (s, there, after_state) =
      >>=-eq-ok (needed (of_symbol order.symbol tables.state) missing_state) _ after_kind in
    let (grown, after_check) =
      raise_if-eq-ok
        (ltb order.filled_qty
          (progress_of order.client_order_id tables.progress).applied_filled_qty)
        quantity_shrinks _ after_state in
    let (s', next, done) =
      >>=-eq-ok (next_state order (progress_of order.client_order_id tables.progress) s) _
        after_check in
    (
      s,
      s',
      of_needed (of_symbol order.symbol tables.state) s missing_state there,
      ap (λ (x : IdleTables). x.state) (sym (ok-injective done)),
      next_state-Accounted order _ s s' (ground arith) next,
      ap (λ (x : IdleTables). (progress_of order.client_order_id x.progress).applied_filled_qty)
            (sym (ok-injective done))
          ∙ ap (λ o. (progress_or_none order.client_order_id o).applied_filled_qty)
              (find-upsert (progressed order (progress_of order.client_order_id tables.progress))
                tables.progress),
    )
