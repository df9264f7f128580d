-- ===== src/Auto/Flow.antt =====
-- automation/service.py: `_apply_external_flow`.
use jh_holdings.Prelude.{
  Option, none, some, [], ◌∷◌, ◌++◌, ◌&&◌, if◌then◌else◌, Result, ok, raise, ◌>>=◌, ◌>>◌, raise_if,
}
use jh_holdings.Decimal.{
  Decimal, of_ℕ, ratio, minus_ratio, ◌⊕◌, ◌⊖◌, ◌⊗◌, divide, leq, less, same, min, max, quantize,
}
use jh_holdings.Auto.State.{
  AutoState, Readings, EventType, AutoError, negative_units, no_equity,
  invalidate_target_generation,
}

abbrev pub or_else : Option Decimal → Decimal → Decimal
or_else none d = d
or_else (some x) d = x

-- `max(Decimal("0"), x.quantize(Decimal("0.01")))`
unfoldable pub cents_of : Decimal → Decimal
cents_of x = max (of_ℕ 0) (quantize 100 x)

-- the equity before the flow, and the value of a unit
pub record Valuation : Type 0 where
  pub pre_equity : Decimal
  pub unit_value : Decimal

abbrev pub positive_or_one : Decimal → Decimal
positive_or_one nav = if leq nav (of_ℕ 0) then of_ℕ 1 else nav

abbrev pub by_equity : Option Decimal → AutoState → Result AutoError Valuation
by_equity none s = raise no_equity
by_equity (some equity) s = ok (record {
  pre_equity = equity;
  unit_value = positive_or_one (
      if less (of_ℕ 0) s.units && leq (of_ℕ 0) equity
      then divide equity s.units
      else or_else s.nav (of_ℕ 1));
})

unfoldable pub valuation : Readings → AutoState → Result AutoError Valuation
valuation readings s =
    let marked = by_equity readings.marked_equity s in
    if s.accounting_started && less (of_ℕ 0) s.effective_principal
    then marked
    else ok (record { pre_equity = s.effective_principal; unit_value = of_ℕ 1 })

-- the units after a flow
unfoldable pub units_after : AutoState → Decimal → Decimal → Decimal
units_after s unit_value delta =
    s.units ⊕ (if less (of_ℕ 0) unit_value then divide delta unit_value else delta)

-- the books once the flow is valued
unfoldable pub flowed : EventType → Decimal → Valuation → AutoState → AutoState
flowed kind new_effective v s =
    let delta = new_effective ⊖ s.effective_principal in
    let high_water = max new_effective (or_else s.high_water s.effective_principal ⊕ delta) in
    let gain = max (of_ℕ 0) (high_water ⊖ new_effective) in
    let budget = min (max (of_ℕ 0) (v.pre_equity ⊕ delta)) (new_effective ⊕ ratio 3 4 ⊗ gain) in
    record (invalidate_target_generation s) {
      effective_principal = new_effective;
      units = max (of_ℕ 0) (units_after s v.unit_value delta);
      nav = some v.unit_value;
      high_water = some high_water;
      risk_budget = max (of_ℕ 0) budget;
      events =
          s.events
          ++ record {
            event_type = kind;
            old_target = s.target_principal;
            new_target = s.target_principal;
            old_effective = s.effective_principal;
            new_effective = new_effective;
            external_flow = delta;
          }
            ∷ [];
    }

abbrev pub flow_to : EventType → Readings → Decimal → AutoState → Result AutoError AutoState
flow_to kind readings new_effective s = do
  v ← valuation readings s
  raise_if
      (less (units_after s v.unit_value (new_effective ⊖ s.effective_principal))
        (minus_ratio 1 1000000))
      negative_units
  ok (flowed kind new_effective v s)

-- `_apply_external_flow`
unfoldable pub apply_external_flow :
    EventType → Readings → Decimal → AutoState → Result AutoError AutoState
apply_external_flow kind readings new_effective s =
    let changed = flow_to kind readings (cents_of new_effective) s in
    if same (cents_of new_effective ⊖ s.effective_principal) (of_ℕ 0) then ok s else changed
