-- ===== src/Positions/Effects.antt =====
-- What a sale writes: the run of `apply_sell_fill` call by call.
use jh_holdings.Prelude.{
  ℕ, String, ◌∙◌, ◌≡◌, refl, sym, subst, ap, Option, none, some, Bool, true, false, ◌==◌, arith,
  Result, ok, raise,
}
use jh_holdings.Core.Config.{StrategyConfig}
use jh_holdings.Core.Enums.{PositionState, PositionState-discrete, is_state}
use jh_holdings.Orders.Ledger.{OrderRow, is_terminal}
use jh_holdings.Store.Positions.{
  Ledger, PositionRow, find_position, Transition, other_version, moved_ledger,
}
use jh_holdings.Store.Positions.Laws.{transition_total}
use jh_holdings.Store.Plans.{TpPlan, Plans, deactivate_tp_plan}
use jh_holdings.Positions.Book.{Book, Run, FillError, after, moved, move, end_plan, mark_applied}
use jh_holdings.Positions.Sells.{
  sold, sale, sell_transition, confirmed, only_if, note_first, finish, book_rest, book_partial,
}

-- The run returned, and left these two tables.
pub record Writes (run : Book × Result FillError (Unit {0})) (ledger : Ledger) (plans : Plans)
    : Type 0 where
  pub returned : run.1 ≡ ok tt
  pub ledger_is : run.0.ledger ≡ ledger
  pub plans_is : run.0.plans ≡ plans

-- A call that maps the tables, after a run.
after-Writes :
    (run : Book × Result FillError (Unit {0})) (next : Run (Unit {0})) (f : Ledger → Ledger)
    (g : Plans → Plans) {ledger : Ledger} {plans : Plans}
    → Writes run ledger plans
    → ((book : Book) → Writes (next book) (f book.ledger) (g book.plans))
    → Writes (after run (λ done. next)) (f ledger) (g plans)
after-Writes (book, ok u) next f g w k = record {
  returned = (k book).returned;
  ledger_is = (k book).ledger_is ∙ ap f w.ledger_is;
  plans_is = (k book).plans_is ∙ ap g w.plans_is;
}
after-Writes (book, raise e) next f g w k = cc (w.returned)

-- A call that leaves both tables, under a test.
only_if-Writes :
    (b : Bool) (call : Run (Unit {0}))
    → ((book : Book) → Writes (call book) book.ledger book.plans)
    → (book : Book) → Writes (only_if b call book) book.ledger book.plans
only_if-Writes true call k book = k book
only_if-Writes false call k book = record { returned = refl; ledger_is = refl; plans_is = refl }

finish-Writes : (order : OrderRow) (book : Book) → Writes (finish order book) book.ledger book.plans
finish-Writes order =
    only_if-Writes (is_terminal order.status) (mark_applied order.client_order_id)
      (λ book. record { returned = refl; ledger_is = refl; plans_is = refl })

note-Writes :
    (order : OrderRow) (cycle : Option String) (at : ℕ) (book : Book)
    → Writes (note_first order cycle at book) book.ledger book.plans
note-Writes order none at book = record { returned = refl; ledger_is = refl; plans_is = refl }
note-Writes order (some c) at book = record { returned = refl; ledger_is = refl; plans_is = refl }

-- the plans, once a sale has left `quantity`
abbrev pub plans_after : Bool → ℕ → Plans → Plans
plans_after true id plans = deactivate_tp_plan id plans
plans_after false id plans = plans

end-Writes :
    (b : Bool) (id : ℕ) (book : Book)
    → Writes (only_if b (end_plan id) book) book.ledger (plans_after b id book.plans)
end-Writes true id book = record { returned = refl; ledger_is = refl; plans_is = refl }
end-Writes false id book = record { returned = refl; ledger_is = refl; plans_is = refl }

is_state_refl : (s : PositionState) → is_state s s ≡ true
is_state_refl s = go (PositionState-discrete s s)
  where
    go : (d : Dec (s ≡ s)) → elim d [ yes p ↦ true | no p ↦ false ] ≡ true
    go (yes p) = refl
    go (no p) = absurd (p refl)

-- A position that was just read moves.
pub move-Writes :
    (t : Transition) (row : PositionRow) (book : Book)
    → find_position t.symbol book.ledger.positions ≡ some row
    → t.expected_state ≡ row.snapshot.state
    → t.expected_version ≡ some row.snapshot.version
    → Writes (move t book) (moved_ledger t row book.ledger) book.plans
move-Writes t row book found state version =
    subst (λ r. Writes (moved book r) (moved_ledger t row book.ledger) book.plans)
      (sym (
        transition_total t book.ledger row found
          (subst (λ s. is_state row.snapshot.state s ≡ true) (sym state)
            (is_state_refl row.snapshot.state))
          (subst (λ v. other_version v row.snapshot.version ≡ false) (sym version) (ground arith))))
      (record { returned = refl; ledger_is = refl; plans_is = refl })

module _ (order : OrderRow) (row : PositionRow) (book : Book)
    (found : find_position order.symbol book.ledger.positions ≡ some row) where
  pub book_partial-Writes :
      (quantity : ℕ)
      → Writes
          (book_partial order row.snapshot quantity book)
          (moved_ledger
            (sell_transition order.symbol row.snapshot
              (row.snapshot.state, sold row.snapshot quantity)
              "TP1_PARTIAL_FILL")
            row
            book.ledger)
          book.plans
  unfolding book_partial sell_transition
  book_partial-Writes quantity =
      after-Writes _ (finish order) (λ l. l) (λ p. p) (move-Writes _ row book found refl refl)
        (finish-Writes order)

  pub book_rest-Writes :
      (config : StrategyConfig) (at : ℕ) (plan : TpPlan) (quantity leg : ℕ)
      → Writes
          (book_rest config at order row.snapshot plan quantity leg book)
          (moved_ledger
            (sell_transition order.symbol row.snapshot
              (sale config order.purpose row.snapshot quantity leg)
              (confirmed order.purpose))
            row
            book.ledger)
          (plans_after (quantity == 0) plan.tp_plan_id book.plans)
  unfolding book_rest sell_transition
  book_rest-Writes config at plan quantity leg =
      after-Writes _ _ (λ l. l) (plans_after (quantity == 0) plan.tp_plan_id)
        (move-Writes _ row book found refl refl)
        (λ b1.
          after-Writes _ _ (λ l. l) (plans_after (quantity == 0) plan.tp_plan_id)
            (only_if-Writes _ _ (note-Writes order row.snapshot.cycle_id at) b1)
            (λ b2.
              after-Writes _ _ (λ l. l) (λ p. p) (end-Writes (quantity == 0) plan.tp_plan_id b2)
                (finish-Writes order)))
