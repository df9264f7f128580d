-- ===== src/Positions/SellRuns.antt =====
-- The outcome of a sale of a balanced position.
use jh_holdings.Prelude.{
  ℕ, ◌-◌, ◌≤◌, ◌<◌, ◌≡◌, ◌⊎◌, refl, ap, ◌∙◌, inl, inr, some, Bool, true, false, ◌&&◌, ltb, ◌==◌,
  arith, Result, raise,
}
use jh_holdings.Core.Config.{StrategyConfig}
use jh_holdings.Orders.Ledger.{OrderRow, find_order}
use jh_holdings.Core.Models.{PositionSnapshot}
use jh_holdings.Store.Positions.{get_position, Transition, moved_row, moved_ledger}
use jh_holdings.Store.Positions.Laws.{moved_row-identity}
use jh_holdings.Store.Plans.{TpPlan, Leg, update_tp_fills, target_qty, filled_qty}
use jh_holdings.Positions.Book.{Book, Run, FillError, fill_shrinks}
use jh_holdings.Positions.Sells.{
  is_tp1, sale, confirmed, sell_transition, leg_of, leg_filled, book_partial, book_rest, book_leg,
  book_sell, apply_sell_fill,
}
use jh_holdings.Positions.Effects.{plans_after, book_partial-Writes, book_rest-Writes}
use jh_holdings.Positions.Balance.{
  Balanced, Closed, SaleDone, leg_filled-le, fits, held-moved, moved-Balanced, sold-count,
  sale-quantity, partial-quantity, sale-closes,
}

-- the table of plans once the leg is filled
abbrev filled_book : Book → TpPlan → Leg → ℕ → Book
filled_book book plan leg n = record book {
  plans = update_tp_fills plan.tp_plan_id leg n book.plans;
}

abbrev by_kind :
    Bool → StrategyConfig → ℕ → OrderRow → PositionSnapshot → TpPlan → ℕ → ℕ → Run (Unit {0})
by_kind kind config at order p plan quantity n = elim kind [
  | true ↦ book_partial order p quantity
  | false ↦ book_rest config at order p plan quantity n
]

book_leg_runs :
    (config : StrategyConfig) (at : ℕ) (order : OrderRow) (p : PositionSnapshot) (plan : TpPlan)
    (leg : Leg) (book : Book)
    → filled_qty leg plan ≤ leg_filled leg plan order
    → leg_filled leg plan order - filled_qty leg plan ≤ p.quantity
    → book_leg config at order p plan leg book
      ≡ by_kind
          (is_tp1 order.purpose && ltb (leg_filled leg plan order) (target_qty leg plan))
          config
          at
          order
          p
          plan
          (p.quantity - (leg_filled leg plan order - filled_qty leg plan))
          (leg_filled leg plan order)
          (filled_book book plan leg (leg_filled leg plan order))
unfolding book_leg
book_leg_runs config at order p plan leg book grown fits =
    let t1 : ltb (leg_filled leg plan order) (filled_qty leg plan) ≡ false = ground arith in
    let t2 : ltb p.quantity (leg_filled leg plan order - filled_qty leg plan) ≡ false =
      ground arith in
    rw (t1, t2) refl

module _ (config : StrategyConfig) (at : ℕ) (order : OrderRow) (book : Book)
    (b : Balanced order.symbol book) (leg : Leg) (n : ℕ) (grown : filled_qty leg b.plan ≤ n)
    (within : n ≤ target_qty leg b.plan) where
  left : ℕ
  left = b.row.snapshot.quantity - (n - filled_qty leg b.plan)

  partial_done :
      SaleDone order.symbol leg b.plan b.row.snapshot n
        (book_partial order b.row.snapshot left (filled_book book b.plan leg n))
  unfolding SaleDone left sell_transition
  partial_done =
      let w = book_partial-Writes order b.row (filled_book book b.plan leg n) b.held left in
      (
        w.returned,
        sold-count order book b leg n grown within _
            (book_partial order b.row.snapshot left (filled_book book b.plan leg n)).0 refl
            (partial-quantity order.symbol _ b.row left) w.ledger_is,
        inl (
            moved-Balanced order book b leg n grown within _
              (book_partial order b.row.snapshot left (filled_book book b.plan leg n)).0 refl
              (partial-quantity order.symbol _ b.row left) w.ledger_is w.plans_is),
      )

  abbrev rest_run : Book × Result FillError (Unit {0})
  rest_run = book_rest config at order b.row.snapshot b.plan left n (filled_book book b.plan leg n)

  rest_ends :
      (t : Transition) (z : Bool)
      → t
        ≡ sell_transition order.symbol b.row.snapshot
            (sale config order.purpose b.row.snapshot left n)
            (confirmed order.purpose)
      → (left == 0) ≡ z
      → rest_run.0.ledger ≡ moved_ledger t b.row book.ledger
      → rest_run.0.plans ≡ plans_after z b.plan.tp_plan_id (filled_book book b.plan leg n).plans
      → Balanced order.symbol rest_run.0 ⊎ Closed order.symbol rest_run.0
  unfolding left sell_transition
  rest_ends t false is e l p = inl (
      moved-Balanced order book b leg n grown within t rest_run.0
        (ap (λ (x : Transition). x.symbol) is) (quantity_of t is) l p)
    where
      quantity_of :
          (t : Transition)
          → t
            ≡ sell_transition order.symbol b.row.snapshot
                (sale config order.purpose b.row.snapshot left n)
                (confirmed order.purpose)
          → (moved_row t b.row).snapshot.quantity ≡ left
      quantity_of t is =
          ap (λ x. (moved_row x b.row).snapshot.quantity) is
          ∙ sale-quantity config order.purpose order.symbol (confirmed order.purpose) b.row left n
  rest_ends t true is e l p = inr (record {
    row = moved_row t b.row;
    held =
        held-moved order book b leg n grown within t rest_run.0
          (ap (λ (x : Transition). x.symbol) is) l;
    nothing =
        ap (λ x. (moved_row x b.row).snapshot.quantity) is
        ∙ sale-quantity config order.purpose order.symbol (confirmed order.purpose) b.row left n
        ∙ ground arith;
    state_is =
        (moved_row-identity t b.row).2
        ∙ ap (λ (x : Transition). x.new_state) is
        ∙ sale-closes config order.purpose b.row.snapshot left n e;
  })

  rest_done : SaleDone order.symbol leg b.plan b.row.snapshot n rest_run
  unfolding SaleDone left sell_transition
  rest_done =
      let w =
        book_rest-Writes order b.row (filled_book book b.plan leg n) b.held config at b.plan left
          n in
      let q =
        sale-quantity config order.purpose order.symbol (confirmed order.purpose) b.row left n in
      (
        w.returned,
        sold-count order book b leg n grown within _ rest_run.0 refl q w.ledger_is,
        rest_ends _ (left == 0) refl refl w.ledger_is w.plans_is,
      )

-- A sale through the active plan of a balanced position.
pub book_leg_done :
    (config : StrategyConfig) (at : ℕ) (order : OrderRow) (book : Book)
    (b : Balanced order.symbol book) (leg : Leg)
    → filled_qty leg b.plan ≤ leg_filled leg b.plan order
    → SaleDone order.symbol leg b.plan b.row.snapshot
        (leg_filled leg b.plan order)
        (book_leg config at order b.row.snapshot b.plan leg book)
unfolding left
book_leg_done config at order book b leg grown =
    let within = leg_filled-le leg b.plan order in
    rw
      (book_leg_runs config at order b.row.snapshot b.plan leg book grown
        (fits order book b leg (leg_filled leg b.plan order) grown within))
      (by_cases (is_tp1 order.purpose && ltb (leg_filled leg b.plan order) (target_qty leg b.plan)))
  where
    n : ℕ
    n = leg_filled leg b.plan order

    by_cases :
        (kind : Bool)
        → SaleDone order.symbol leg b.plan b.row.snapshot n (
            by_kind kind config at order b.row.snapshot b.plan
              (b.row.snapshot.quantity - (n - filled_qty leg b.plan))
              n
              (filled_book book b.plan leg n))
    by_cases true = partial_done config at order book b leg n grown (leg_filled-le leg b.plan order)
    by_cases false = rest_done config at order book b leg n grown (leg_filled-le leg b.plan order)

book_leg_shrinks :
    (config : StrategyConfig) (at : ℕ) (order : OrderRow) (p : PositionSnapshot) (plan : TpPlan)
    (leg : Leg) (book : Book)
    → ltb (leg_filled leg plan order) (filled_qty leg plan) ≡ true
    → book_leg config at order p plan leg book ≡ (book, raise fill_shrinks)
unfolding book_leg
book_leg_shrinks config at order p plan leg book t = rw t refl

-- For an order with a fill that is not applied, of a take-profit purpose and on a balanced
-- position, a sale either has no smaller cumulative fill of its leg than the plan, returns,
-- takes off the position exactly what the leg gains, and leaves the position balanced or closed;
-- or it has a smaller one, raises so, and changes nothing. It never finds more sold than held.
pub apply_sell_fill-outcome :
    (config : StrategyConfig) (at id : ℕ) (order : OrderRow) (leg : Leg) (book : Book)
    (b : Balanced order.symbol book)
    → find_order id book.orders ≡ some order
    → order.applied ≡ false
    → (order.filled_qty == 0) ≡ false
    → leg_of order.purpose ≡ some leg
    → ((filled_qty leg b.plan ≤ leg_filled leg b.plan order)
        × SaleDone order.symbol leg b.plan b.row.snapshot
            (leg_filled leg b.plan order)
            (apply_sell_fill config at id book))
      ⊎ ((leg_filled leg b.plan order < filled_qty leg b.plan)
          × (apply_sell_fill config at id book ≡ (book, raise fill_shrinks)))
unfolding apply_sell_fill book_sell get_position leg_filled book_leg
apply_sell_fill-outcome config at id order leg book b there fresh filled named =
    rw (there, fresh, filled, b.held, b.planned, named)
      (by_growth (ltb (leg_filled leg b.plan order) (filled_qty leg b.plan)) refl)
  where
    by_growth :
        (t : Bool)
        → ltb (leg_filled leg b.plan order) (filled_qty leg b.plan) ≡ t
        → ((filled_qty leg b.plan ≤ leg_filled leg b.plan order)
            × SaleDone order.symbol leg b.plan b.row.snapshot
                (leg_filled leg b.plan order)
                (book_leg config at order b.row.snapshot b.plan leg book))
          ⊎ ((leg_filled leg b.plan order < filled_qty leg b.plan)
              × (book_leg config at order b.row.snapshot b.plan leg book
                  ≡ (book, raise fill_shrinks)))
    by_growth true t =
        inr (ground arith, book_leg_shrinks config at order b.row.snapshot b.plan leg book t)
    by_growth false t = inl (ground arith, book_leg_done config at order book b leg (ground arith))
