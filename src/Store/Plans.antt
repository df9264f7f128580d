-- ===== src/Store/Plans.antt =====
-- application/database.py: the `tp_plans` table.
pub mod Laws
use jh_holdings.Prelude.{
  ℕ, ◌+◌, String, Option, none, some, List, [], ◌∷◌, ◌++◌, map, Bool, true, false, not, ◌&&◌, ltb,
  ◌==◌, if◌then◌else◌, str_eq, length, Result, ok, raise,
}
use jh_holdings.Decimal.{Decimal}
use jh_holdings.Core.Enums.{OrderPurpose}

pub record TpPlan : Type 0 where
  pub tp_plan_id : ℕ
  pub cycle_id : Option String
  pub symbol : String
  pub source_event : OrderPurpose
  pub avg_price : Decimal
  pub atr_pct : Decimal
  pub tp1_price : Decimal
  pub tp1_target_qty : ℕ
  pub tp1_filled_qty : ℕ
  pub tp2_price : Decimal
  pub tp2_target_qty : ℕ
  pub tp2_filled_qty : ℕ
  pub revision : ℕ
  pub active : Bool

abbrev pub Plans : Type 0
Plans = List TpPlan

-- the two legs of a plan, as `update_tp_fills` names them
pub data Leg : Type 0 where
  first second : Leg

abbrev pub target_qty : Leg → TpPlan → ℕ
target_qty first plan = plan.tp1_target_qty
target_qty second plan = plan.tp2_target_qty

abbrev pub filled_qty : Leg → TpPlan → ℕ
filled_qty first plan = plan.tp1_filled_qty
filled_qty second plan = plan.tp2_filled_qty

-- the newest plan of the two
abbrev pub newer : TpPlan → Option TpPlan → Option TpPlan
newer plan none = some plan
newer plan (some other) = if ltb plan.tp_plan_id other.tp_plan_id then some other else some plan

-- `active_tp_plan`
unfoldable pub active_tp_plan : String → Plans → Option TpPlan
active_tp_plan symbol [] = none
active_tp_plan symbol (plan ∷ rest) =
    let later = active_tp_plan symbol rest in
    if str_eq plan.symbol symbol && plan.active then newer plan later else later

unfoldable pub retire : String → TpPlan → TpPlan
retire symbol plan =
    if str_eq plan.symbol symbol && plan.active then record plan { active = false } else plan

pub record NewPlan : Type 0 where
  pub cycle_id : Option String
  pub symbol : String
  pub source_event : OrderPurpose
  pub average_price : Decimal
  pub atr_pct : Decimal
  pub tp1_price : Decimal
  pub tp1_target_qty : ℕ
  pub tp2_price : Decimal
  pub tp2_target_qty : ℕ

abbrev pub plan_row : ℕ → NewPlan → TpPlan
plan_row id p = record {
  tp_plan_id = id;
  cycle_id = p.cycle_id;
  symbol = p.symbol;
  source_event = p.source_event;
  avg_price = p.average_price;
  atr_pct = p.atr_pct;
  tp1_price = p.tp1_price;
  tp1_target_qty = p.tp1_target_qty;
  tp1_filled_qty = 0;
  tp2_price = p.tp2_price;
  tp2_target_qty = p.tp2_target_qty;
  tp2_filled_qty = 0;
  revision = 0;
  active = true;
}

-- `lastrowid`: rows are never deleted, so that the ids count them
abbrev pub next_id : Plans → ℕ
next_id plans = length plans + 1

-- `create_tp_plan`, with the new row's id
unfoldable pub create_tp_plan : NewPlan → Plans → Plans × ℕ
unfolding retire
create_tp_plan p plans =
    (map (retire p.symbol) plans ++ plan_row (next_id plans) p ∷ [], next_id plans)

abbrev pub with_filled : Leg → ℕ → TpPlan → TpPlan
with_filled first n plan = record plan { tp1_filled_qty = n }
with_filled second n plan = record plan { tp2_filled_qty = n }

-- `update_tp_fills`, on one row
unfoldable pub fill_leg : ℕ → Leg → ℕ → TpPlan → TpPlan
fill_leg id leg n plan = if plan.tp_plan_id == id then with_filled leg n plan else plan

abbrev pub update_tp_fills : ℕ → Leg → ℕ → Plans → Plans
update_tp_fills id leg n plans = map (fill_leg id leg n) plans

unfoldable pub find_active : ℕ → Plans → Option TpPlan
find_active id [] = none
find_active id (plan ∷ rest) =
    let later = find_active id rest in
    if plan.tp_plan_id == id && plan.active then some plan else later

unfoldable pub bump_row : ℕ → TpPlan → TpPlan
bump_row id plan =
    if plan.tp_plan_id == id && plan.active
    then record plan { revision = plan.revision + 1 }
    else plan

-- `bump_tp_revision`; `none` is its `KeyError`, which rolls nothing back, since no row has changed
abbrev revision_of : Option TpPlan → Plans → Option (Plans × ℕ)
revision_of none plans = none
revision_of (some plan) plans = some (plans, plan.revision)

unfoldable pub bump_tp_revision : ℕ → Plans → Option (Plans × ℕ)
bump_tp_revision id plans =
    revision_of (find_active id (map (bump_row id) plans)) (map (bump_row id) plans)

-- `deactivate_tp_plan`, on one row
unfoldable pub deactivate : ℕ → TpPlan → TpPlan
deactivate id plan = if plan.tp_plan_id == id then record plan { active = false } else plan

abbrev pub deactivate_tp_plan : ℕ → Plans → Plans
deactivate_tp_plan id plans = map (deactivate id) plans
