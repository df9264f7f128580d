-- ===== src/Positions/Balance.antt =====
-- What a position owes the two legs of its plan: the invariant between buys and sales.
use jh_holdings.Prelude.{
  ℕ, ◌+◌, ◌-◌, ◌≤◌, ◌≡◌, ◌⊎◌, refl, sym, subst, ap, ◌∙◌, inl, inr, String, some, true, ◌==◌, arith,
  Result, ok, Bool-cases,
}
use jh_holdings.Core.Config.{StrategyConfig}
use jh_holdings.Core.Enums.{OrderPurpose, PositionState}
use jh_holdings.Orders.Ledger.{OrderRow}
use jh_holdings.Core.Models.{PositionSnapshot}
use jh_holdings.Store.Positions.{
  Ledger, PositionRow, find_position, Transition, moved_row, moved_ledger, set_columns,
}
use jh_holdings.Store.Positions.Laws.{find-moved_ledger}
use jh_holdings.Store.Plans.{
  TpPlan, Leg, first, second, active_tp_plan, fill_leg, update_tp_fills, target_qty, filled_qty,
  with_filled,
}
use jh_holdings.Store.Plans.Laws.{active-map, fill_leg-Keeps}
use jh_holdings.Positions.Book.{Book, FillError}
use jh_holdings.Positions.Sells.{is_tp1, sold, sale, sell_transition, leg_filled}

-- What is held and what the active plan's legs have sold is what the plan was made for.
pub record Balanced (symbol : String) (book : Book) : Type 0 where
  pub row : PositionRow
  pub plan : TpPlan
  pub held : find_position symbol book.ledger.positions ≡ some row
  pub planned : active_tp_plan symbol book.plans ≡ some plan
  pub balance :
      row.snapshot.quantity + (plan.tp1_filled_qty + plan.tp2_filled_qty)
      ≡ plan.tp1_target_qty + plan.tp2_target_qty
  pub first_le : plan.tp1_filled_qty ≤ plan.tp1_target_qty
  pub second_le : plan.tp2_filled_qty ≤ plan.tp2_target_qty

-- A leg of a balanced plan, filled to `n`, sells no more than what is held.
pub leg-le-held :
    (leg : Leg) (plan : TpPlan) (quantity n : ℕ)
    → quantity + (plan.tp1_filled_qty + plan.tp2_filled_qty)
      ≡ plan.tp1_target_qty + plan.tp2_target_qty
    → plan.tp1_filled_qty ≤ plan.tp1_target_qty
    → plan.tp2_filled_qty ≤ plan.tp2_target_qty
    → n ≤ target_qty leg plan
    → n - filled_qty leg plan ≤ quantity
leg-le-held first plan quantity n e h k le = omega arith
leg-le-held second plan quantity n e h k le = omega arith

pub leg_filled-le :
    (leg : Leg) (plan : TpPlan) (order : OrderRow) → leg_filled leg plan order ≤ target_qty leg plan
unfolding leg_filled
leg_filled-le leg plan order = omega arith

-- what the plan's legs have sold, once a leg is filled to `n`
pub with_filled-balance :
    (leg : Leg) (plan : TpPlan) (quantity n : ℕ)
    → quantity + (plan.tp1_filled_qty + plan.tp2_filled_qty)
      ≡ plan.tp1_target_qty + plan.tp2_target_qty
    → filled_qty leg plan ≤ n
    → n - filled_qty leg plan ≤ quantity
    → quantity
        - (n - filled_qty leg plan)
        + ((with_filled leg n plan).tp1_filled_qty + (with_filled leg n plan).tp2_filled_qty)
      ≡ plan.tp1_target_qty + plan.tp2_target_qty
with_filled-balance first plan quantity n e h k = omega arith
with_filled-balance second plan quantity n e h k = omega arith

fill_leg_lem :
    (leg : Leg) (plan : TpPlan) (n : ℕ)
    → fill_leg plan.tp_plan_id leg n plan ≡ with_filled leg n plan
unfolding fill_leg
fill_leg_lem leg plan n = ground arith

-- The position has been sold off.
pub record Closed (symbol : String) (book : Book) : Type 0 where
  pub row : PositionRow
  pub held : find_position symbol book.ledger.positions ≡ some row
  pub nothing : row.snapshot.quantity ≡ 0
  pub state_is : row.snapshot.state ≡ PositionState.empty

-- A sale's updates leave the quantity that it was given.
pub sale-quantity :
    (config : StrategyConfig) (purpose : OrderPurpose) (symbol reason : String) (row : PositionRow)
    (quantity leg : ℕ)
    → (moved_row
        (sell_transition symbol row.snapshot (sale config purpose row.snapshot quantity leg) reason)
        row).snapshot.quantity
      ≡ quantity
unfolding moved_row sell_transition sale set_columns
sale-quantity config purpose symbol reason row quantity leg = elim (Bool-cases (quantity == 0)) [
  | inl z ↦ rw z (ground arith)
  | inr nz ↦ elim (Bool-cases (is_tp1 purpose)) [
    | inl one ↦ rw (nz, one) refl
    | inr rest ↦ rw (nz, rest) refl
  ]
]

pub partial-quantity :
    (symbol reason : String) (row : PositionRow) (quantity : ℕ)
    → (moved_row
        (sell_transition symbol row.snapshot
          (row.snapshot.state, sold row.snapshot quantity)
          reason)
        row).snapshot.quantity
      ≡ quantity
unfolding moved_row sell_transition set_columns
partial-quantity symbol reason row quantity = refl

pub sale-closes :
    (config : StrategyConfig) (purpose : OrderPurpose) (p : PositionSnapshot) (quantity leg : ℕ)
    → (quantity == 0) ≡ true
    → (sale config purpose p quantity leg).0 ≡ PositionState.empty
unfolding sale
sale-closes config purpose p quantity leg h = rw h refl

with_filled_targets :
    (leg : Leg) (plan : TpPlan) (n : ℕ)
    → ((with_filled leg n plan).tp1_target_qty ≡ plan.tp1_target_qty)
      × ((with_filled leg n plan).tp2_target_qty ≡ plan.tp2_target_qty)
with_filled_targets first plan n = (refl, refl)
with_filled_targets second plan n = (refl, refl)

with_filled-le :
    (leg : Leg) (plan : TpPlan) (n : ℕ)
    → plan.tp1_filled_qty ≤ plan.tp1_target_qty
    → plan.tp2_filled_qty ≤ plan.tp2_target_qty
    → n ≤ target_qty leg plan
    → ((with_filled leg n plan).tp1_filled_qty ≤ (with_filled leg n plan).tp1_target_qty)
      × ((with_filled leg n plan).tp2_filled_qty ≤ (with_filled leg n plan).tp2_target_qty)
with_filled-le first plan n h k le = (le, k)
with_filled-le second plan n h k le = (h, le)

-- what a sale of a balanced position comes to
unfoldable pub SaleDone :
    String → Leg → TpPlan → PositionSnapshot → ℕ → Book × Result FillError (Unit {0}) → Type 0
SaleDone symbol leg plan p n run =
    (run.1 ≡ ok tt)
    × ((row : PositionRow) × (find_position symbol run.0.ledger.positions ≡ some row)
        × (row.snapshot.quantity + n ≡ p.quantity + filled_qty leg plan))
    × (Balanced symbol run.0 ⊎ Closed symbol run.0)

module _ (order : OrderRow) (book : Book) (b : Balanced order.symbol book) (leg : Leg) (n : ℕ)
    (grown : filled_qty leg b.plan ≤ n) (within : n ≤ target_qty leg b.plan) where
  pub fits : n - filled_qty leg b.plan ≤ b.row.snapshot.quantity
  fits = leg-le-held leg b.plan b.row.snapshot.quantity n b.balance b.first_le b.second_le within

  filled_active :
      active_tp_plan order.symbol (update_tp_fills b.plan.tp_plan_id leg n book.plans)
      ≡ some (with_filled leg n b.plan)
  filled_active =
      active-map (fill_leg b.plan.tp_plan_id leg n) (fill_leg-Keeps b.plan.tp_plan_id leg n)
        order.symbol book.plans b.plan b.planned
      ∙ ap some (fill_leg_lem leg b.plan n)

  pub held-moved :
      (t : Transition) (run : Book)
      → t.symbol ≡ order.symbol
      → run.ledger ≡ moved_ledger t b.row book.ledger
      → find_position order.symbol run.ledger.positions ≡ some (moved_row t b.row)
  held-moved t run same l =
      subst (λ (x : Ledger). find_position order.symbol x.positions ≡ some (moved_row t b.row))
        (sym l)
        (subst
          (λ s.
            find_position s (moved_ledger t b.row book.ledger).positions ≡ some (moved_row t b.row))
          same
          (find-moved_ledger t book.ledger b.row
            (subst (λ s. find_position s book.ledger.positions ≡ some b.row) (sym same) b.held)))

  -- The tables that a transition to the quantity left makes are balanced again.
  pub moved-Balanced :
      (t : Transition) (run : Book)
      → t.symbol ≡ order.symbol
      → (moved_row t b.row).snapshot.quantity
        ≡ b.row.snapshot.quantity - (n - filled_qty leg b.plan)
      → run.ledger ≡ moved_ledger t b.row book.ledger
      → run.plans ≡ update_tp_fills b.plan.tp_plan_id leg n book.plans
      → Balanced order.symbol run
  moved-Balanced t run same quantity l p = record {
    row = moved_row t b.row;
    plan = with_filled leg n b.plan;
    held = held-moved t run same l;
    planned =
        subst (λ x. active_tp_plan order.symbol x ≡ some (with_filled leg n b.plan)) (sym p)
          filled_active;
    balance = omega (
      arith,
      quantity,
      with_filled-balance leg b.plan b.row.snapshot.quantity n b.balance grown fits,
      (with_filled_targets leg b.plan n).0,
      (with_filled_targets leg b.plan n).1,
    );
    first_le = (with_filled-le leg b.plan n b.first_le b.second_le within).0;
    second_le = (with_filled-le leg b.plan n b.first_le b.second_le within).1;
  }

  pub sold-count :
      (t : Transition) (run : Book)
      → t.symbol ≡ order.symbol
      → (moved_row t b.row).snapshot.quantity
        ≡ b.row.snapshot.quantity - (n - filled_qty leg b.plan)
      → run.ledger ≡ moved_ledger t b.row book.ledger
      → (row : PositionRow) × (find_position order.symbol run.ledger.positions ≡ some row)
        × (row.snapshot.quantity + n ≡ b.row.snapshot.quantity + filled_qty leg b.plan)
  sold-count t run same quantity l =
      (moved_row t b.row, held-moved t run same l, omega (arith, quantity, fits))
