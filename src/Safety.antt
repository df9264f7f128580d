-- ===== src/Safety.antt =====
-- application/operational_safety.py: `OperatorSafetyService.halt`, under the buy lock. The broker is
-- a function from an order id to what its two calls give; the log of events is left out.
pub mod Laws
mod Tests
use jh_holdings.Prelude.{
  ℕ, ◌+◌, String, Option, none, some, List, [], ◌∷◌, map, length, Bool, true, false, ◌&&◌, ◌==◌,
  if◌then◌else◌, str_eq,
}
use jh_holdings.Orders.System.{System, text_is}
use jh_holdings.Orders.Ledger.{OrderRow, Side, buy, sell, Table, is_open}
use jh_holdings.Orders.Equity.{put_text}
use jh_holdings.Store.Approvals.{ApprovalRow, Approvals, is_active, halt_row}
use jh_holdings.Store.Releases.{Intents, halt_intent}

pub record Operator : Type 0 where
  pub system : System
  pub approvals : Approvals
  pub intents : Intents
  pub orders : Table

-- what `cancel_order` and then `get_order` give: an exception of either, or the order read back,
-- with its status in upper case
pub data CancelReply : Type 0 where
  exception : CancelReply
  original : (order_id : Option ℕ) (status : String) → CancelReply

abbrev pub Cancels : Type 0
Cancels = ℕ → CancelReply

abbrev pub is_id : Option ℕ → ℕ → Bool
is_id none id = false
is_id (some read) id = read == id

-- `_cancel_is_confirmed`, with an exception as no confirmation
unfoldable pub cancel_is_confirmed : CancelReply → ℕ → Bool
cancel_is_confirmed exception broker_id = false
cancel_is_confirmed (original order_id status) broker_id =
    is_id order_id broker_id && str_eq status "CANCELED"

-- what the loop makes of an order
pub data Outcome : Type 0 where
  skipped canceled uncertain : Outcome

abbrev by_reply : Cancels → Option ℕ → Outcome
by_reply cancels none = uncertain
by_reply cancels (some id) = if cancel_is_confirmed (cancels id) id then canceled else uncertain

abbrev by_side : Side → Outcome → Outcome
by_side buy outcome = outcome
by_side sell outcome = skipped

unfoldable pub outcome_of : Cancels → OrderRow → Outcome
outcome_of cancels row =
    if is_open row.status then by_side row.side (by_reply cancels row.broker_order_id) else skipped

abbrev pub is_canceled : Outcome → Bool
is_canceled canceled = true
is_canceled _ = false

abbrev pub is_uncertain : Outcome → Bool
is_uncertain uncertain = true
is_uncertain _ = false

-- the client ids of the orders of one outcome, in the order of the loop
unfoldable pub ids_of : (Outcome → Bool) → Cancels → Table → List ℕ
ids_of is_kind cancels [] = []
ids_of is_kind cancels (row ∷ rest) =
    let others = ids_of is_kind cancels rest in
    if is_kind (outcome_of cancels row) then row.client_order_id ∷ others else others

-- the count of the rows that `UPDATE approvals` changes
unfoldable pub active_count : Approvals → ℕ
active_count [] = 0
active_count (row ∷ rest) =
    let others = active_count rest in if is_active row.status then 1 + others else others

pub record HaltResult : Type 0 where
  pub canceled_order_ids : List ℕ
  pub uncertain_order_ids : List ℕ
  pub canceled_approvals : ℕ

-- the operator's latch is set only with JH AUTO
abbrev latch : System → System
latch system =
    if text_is (system "jh_auto_enabled") "1"
    then put_text "jh_auto_operator_halt_latched" "1" system
    else system

unfoldable pub halted_system : (halted_at : String) → System → System
halted_system halted_at system =
    latch (put_text "operator_buy_halt_at" halted_at (put_text "operator_buy_halt" "1" system))

unfoldable pub halt : Cancels → (halted_at : String) → Operator → Operator × HaltResult
halt cancels halted_at s = (
  record {
    system = halted_system halted_at s.system;
    approvals = map halt_row s.approvals;
    intents = map halt_intent s.intents;
    orders = s.orders;
  },
  record {
    canceled_order_ids = ids_of is_canceled cancels s.orders;
    uncertain_order_ids = ids_of is_uncertain cancels s.orders;
    canceled_approvals = active_count s.approvals;
  },
)
