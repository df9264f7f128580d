-- ===== src/Store/Plans/Laws.antt =====
-- Which plan is the active one after each call.
use jh_holdings.Prelude.{
  ℕ, ◌≡◌, refl, ap, ◌∙◌, String, Option, none, some, [], ◌∷◌, ◌++◌, map, Bool, true, false, ◌&&◌,
  ltb, arith, if◌then◌else◌, str_eq, eq_iff,
}
use jh_holdings.Store.Plans.{
  TpPlan, Plans, Leg, first, second, active_tp_plan, newer, retire, NewPlan, plan_row, next_id,
  create_tp_plan, fill_leg,
}

abbrev mapped : (TpPlan → TpPlan) → Option TpPlan → Option TpPlan
mapped f none = none
mapped f (some plan) = some (f plan)

-- A change that leaves a plan's id, symbol and activity alone.
abbrev pub Keeps : (TpPlan → TpPlan) → Type 0
Keeps f =
    (p : TpPlan)
    → ((f p).symbol ≡ p.symbol) × ((f p).active ≡ p.active) × ((f p).tp_plan_id ≡ p.tp_plan_id)

-- `mapped` under a test that the change leaves alone
mapped-if :
    (f : TpPlan → TpPlan) (b' b : Bool) (x y : Option TpPlan)
    → b' ≡ b
    → (if b' then mapped f x else mapped f y) ≡ mapped f (if b then x else y)
mapped-if f true true x y e = refl
mapped-if f false false x y e = refl
mapped-if f true false x y e = cc
mapped-if f false true x y e = cc

mapped-newer :
    (f : TpPlan → TpPlan)
    → Keeps f
    → (p : TpPlan) (o : Option TpPlan) → newer (f p) (mapped f o) ≡ mapped f (newer p o)
mapped-newer f keeps p none = refl
mapped-newer f keeps p (some q) =
    mapped-if f _ (ltb p.tp_plan_id q.tp_plan_id) (some q) (some p)
      (λ i. ltb ((keeps p).2 i) ((keeps q).2 i))

active-mapped :
    (f : TpPlan → TpPlan)
    → Keeps f
    → (symbol : String) (plans : Plans)
    → active_tp_plan symbol (map f plans) ≡ mapped f (active_tp_plan symbol plans)
unfolding active_tp_plan
active-mapped f keeps symbol [] = refl
active-mapped f keeps symbol (p ∷ rest) =
    rw (active-mapped f keeps symbol rest, mapped-newer f keeps p (active_tp_plan symbol rest))
      (mapped-if f _ (str_eq p.symbol symbol && p.active) (newer p (active_tp_plan symbol rest))
        (active_tp_plan symbol rest) (λ i. str_eq ((keeps p).0 i) symbol && (keeps p).1 i))

pub active-map :
    (f : TpPlan → TpPlan)
    → Keeps f
    → (symbol : String) (plans : Plans) (plan : TpPlan) → active_tp_plan symbol plans ≡ some plan
    → active_tp_plan symbol (map f plans) ≡ some (f plan)
active-map f keeps symbol plans plan e = active-mapped f keeps symbol plans ∙ ap (mapped f) e

pub fill_leg-Keeps : (id : ℕ) (leg : Leg) (n : ℕ) → Keeps (fill_leg id leg n)
unfolding fill_leg
fill_leg-Keeps id first n p = (ground arith, ground arith, ground arith)
fill_leg-Keeps id second n p = (ground arith, ground arith, ground arith)

-- Once a symbol's plans are retired, its next plan is the active one.
retired-active :
    (symbol : String) (plans : Plans) (new : TpPlan)
    → str_eq new.symbol symbol ≡ true
    → new.active ≡ true
    → active_tp_plan symbol (map (retire symbol) plans ++ new ∷ []) ≡ some new
unfolding active_tp_plan retire
retired-active symbol [] new same active = rw (same, active) refl
retired-active symbol (p ∷ rest) new same active =
    ground (arith, retired-active symbol rest new same active)

pub active-create_tp_plan :
    (p : NewPlan) (plans : Plans)
    → active_tp_plan p.symbol (create_tp_plan p plans).0 ≡ some (plan_row (next_id plans) p)
unfolding create_tp_plan
active-create_tp_plan p plans =
    retired-active p.symbol plans (plan_row (next_id plans) p) ((eq_iff p.symbol p.symbol).1 refl)
      refl
