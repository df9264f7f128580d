-- ===== src/Safety/Laws.antt =====
-- What a halt leaves behind.
use jh_holdings.Prelude.{
  ℕ, String, ◌≡◌, refl, Option, none, some, [], ◌∷◌, map, any, Bool, true, false, ◌&&◌, ◌||◌, ◌==◌,
  arith, ok,
}
use jh_holdings.Orders.System.{System}
use jh_holdings.Orders.Ledger.{OrderRow, Side, buy, sell, Table, is_open}
use jh_holdings.Orders.Equity.{put_text}
use jh_holdings.Orders.Manager.{buy_is_halted}
use jh_holdings.Store.Approvals.{Approvals, halt_row, has_active_approvals}
use jh_holdings.Store.Releases.{Intents, halt_intent, has_active_cash_release_intents}
use jh_holdings.Safety.{
  Operator, Cancels, cancel_is_confirmed, outcome_of, is_canceled, is_uncertain, ids_of,
  halted_system, halt,
}

abbrev pub is_buy : Side → Bool
is_buy buy = true
is_buy sell = false

abbrev pub is_open_buy : ℕ → OrderRow → Bool
is_open_buy id row = row.client_order_id == id && (is_open row.status && is_buy row.side)

halted-blocks :
    (halted_at : String) (live : Bool) (system : System)
    → buy_is_halted live (halted_system halted_at system) ≡ ok true
unfolding buy_is_halted halted_system put_text
halted-blocks halted_at live system = ground arith

no_approvals : (now : ℕ) (rows : Approvals) → has_active_approvals now (map halt_row rows) ≡ false
unfolding has_active_approvals halt_row
no_approvals now [] = refl
no_approvals now (row ∷ rows) = ground (arith, no_approvals now rows)

no_intents :
    (now : ℕ) (rows : Intents) → has_active_cash_release_intents now (map halt_intent rows) ≡ false
unfolding has_active_cash_release_intents halt_intent
no_intents now [] = refl
no_intents now (row ∷ rows) = ground (arith, no_intents now rows)

outcome_of-buy :
    (cancels : Cancels) (row : OrderRow)
    → (is_canceled (outcome_of cancels row) || is_uncertain (outcome_of cancels row))
      ≡ (is_open row.status && is_buy row.side)
unfolding outcome_of
outcome_of-buy cancels row = ground arith

listed :
    (cancels : Cancels) (id : ℕ) (rows : Table)
    → (any (λ k. k == id) (ids_of is_canceled cancels rows)
        || any (λ k. k == id) (ids_of is_uncertain cancels rows))
      ≡ any (is_open_buy id) rows
unfolding ids_of
listed cancels id [] = refl
listed cancels id (row ∷ rows) = ground (arith, outcome_of-buy cancels row, listed cancels id rows)

-- the broker has read the order back as canceled
abbrev pub confirmed : Cancels → Option ℕ → Bool
confirmed cancels none = false
confirmed cancels (some id) = cancel_is_confirmed (cancels id) id

outcome_of-canceled :
    (cancels : Cancels) (row : OrderRow)
    → is_canceled (outcome_of cancels row)
      ≡ (is_open row.status && is_buy row.side && confirmed cancels row.broker_order_id)
unfolding outcome_of
outcome_of-canceled cancels row = ground arith

listed_canceled :
    (cancels : Cancels) (id : ℕ) (rows : Table)
    → any (λ k. k == id) (ids_of is_canceled cancels rows)
      ≡ any (λ row. is_open_buy id row && confirmed cancels row.broker_order_id) rows
unfolding ids_of
listed_canceled cancels id [] = refl
listed_canceled cancels id (row ∷ rows) =
    ground (arith, outcome_of-canceled cancels row, listed_canceled cancels id rows)

-- After a halt the test of a BUY submission reads it as halted, in a live and a dry run, no
-- approval and no cash-release intent is active, and the listed ids are those of the open buys:
-- a canceled one is the id of an open buy that the broker has read back as canceled, and every
-- other open buy is listed as uncertain.
pub halt-blocks_all :
    (cancels : Cancels) (halted_at : String) (s : Operator) (live : Bool) (now id : ℕ)
    → let (after, result) = halt cancels halted_at s in
      (buy_is_halted live after.system ≡ ok true)
      × (has_active_approvals now after.approvals ≡ false)
      × (has_active_cash_release_intents now after.intents ≡ false)
      × ((any (λ k. k == id) result.canceled_order_ids
            || any (λ k. k == id) result.uncertain_order_ids)
          ≡ any (is_open_buy id) s.orders)
      × (any (λ k. k == id) result.canceled_order_ids
          ≡ any (λ row. is_open_buy id row && confirmed cancels row.broker_order_id) s.orders)
unfolding halt
halt-blocks_all cancels halted_at s live now id = (
  halted-blocks halted_at live s.system,
  no_approvals now s.approvals,
  no_intents now s.intents,
  listed cancels id s.orders,
  listed_canceled cancels id s.orders,
)
