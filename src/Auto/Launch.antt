-- ===== src/Auto/Launch.antt =====
-- automation/service.py: the operator's settings, the launch and the quarantine. Each change is one
-- transaction (`atomic_auto_change`), so that a raise leaves the state as it was.
use jh_holdings.Prelude.{
  ℕ, ◌+◌, Option, none, some, [], ◌∷◌, ◌++◌, Bool, true, false, not, ◌&&◌, ◌||◌, ◌==◌, any,
  if◌then◌else◌, Result, ok, raise, ◌>>=◌, ◌>>◌, raise_if,
}
use jh_holdings.Decimal.{Decimal, of_ℕ, ratio, ◌⊕◌, ◌⊖◌, ◌⊗◌, leq, less, same, quantize_down}
use jh_holdings.Store.Fills.{CoreRow}
use jh_holdings.Auto.State.{
  AutoState, Readings, Phase, setup, ready, startup_quarantine, auto_quarantine, operator_halt,
  safe_mode, running, config_change, capital_reduction, capital_increase_stage_1, launch_stage_1,
  AutoError, orders_open, ramp_not_done, not_configured, ledger_dirty, mismatch, too_little_power,
  in_safe_mode, accounting_incomplete, configured, is_given,
}
use jh_holdings.Auto.Config.{normalize_money, normalize_ratio_percent, target_principal}
use jh_holdings.Auto.Flow.{apply_external_flow}

-- the share of the added capital that a stage opens
abbrev pub ramp_fraction : ℕ → Decimal
ramp_fraction n = if n == 1 then ratio 1 2 else if n == 2 then ratio 3 4 else of_ℕ 1

-- the principal that a stage of a ramp opens
unfoldable pub ramp_principal : Decimal → Decimal → ℕ → Decimal
ramp_principal base target stage = quantize_down 100 (base ⊕ (target ⊖ base) ⊗ ramp_fraction stage)

abbrev pub ramp_to : ℕ → Decimal → Decimal → Option ℕ → AutoState → AutoState
ramp_to stage base target started s = record s {
  ramp_stage = stage;
  ramp_base_principal = base;
  ramp_target_principal = target;
  ramp_stage_started = started;
  ramp_stage_filled = if stage == 0 then s.ramp_stage_filled else none;
}

-- `_retarget_live_principal`; `old` are the settings before the change
unfoldable pub retarget_live :
    Readings → AutoState → Decimal → AutoState → Result AutoError AutoState
retarget_live readings old target s =
    let reduced =
      apply_external_flow capital_reduction readings target
        (ramp_to 0 target target s.ramp_stage_started s) in
    let stopped = ok (ramp_to 0 old.effective_principal target s.ramp_stage_started s) in
    let opened =
      apply_external_flow capital_increase_stage_1 readings
        (ramp_principal old.effective_principal target 1)
        (ramp_to 1 old.effective_principal target (some readings.latest_completed) s) in
    if same target old.target_principal
    then ok s
    else if less target old.effective_principal
    then reduced
    else if less target old.target_principal
    then stopped
    else opened

abbrev pub or_before : Option Decimal → Option Decimal → Option Decimal
or_before none old = old
or_before (some x) old = some x

abbrev pub configured_as : Option Decimal → Option Decimal → AutoState → AutoState
configured_as base rate s = record s {
  base_capital = base;
  ratio = rate;
  target_principal = target_principal base rate;
  config_revision = s.config_revision + 1;
}

abbrev pub noted : Option Decimal → Option Decimal → AutoState → AutoState → AutoState
noted base rate old s = record s {
  phase = if is_given base && is_given rate then ready else setup;
  events =
      s.events
      ++ record {
        event_type = config_change;
        old_target = old.target_principal;
        new_target = target_principal base rate;
        old_effective = old.effective_principal;
        new_effective = old.effective_principal;
        external_flow = of_ℕ 0;
      }
        ∷ [];
}

abbrev pub config_for :
    Readings → Option Decimal → Option Decimal → AutoState → Result AutoError AutoState
config_for readings base rate s =
    let live = retarget_live readings s (target_principal base rate) (configured_as base rate s) in
    do
      raise_if (s.launch_authorized && readings.open_orders) orders_open
      raise_if
          (s.launch_authorized
            && (less s.target_principal (target_principal base rate) && not (s.ramp_stage == 0)))
          ramp_not_done
      elim s.launch_authorized [
        | true ↦ live
        | false ↦ ok (noted base rate s (configured_as base rate s))
      ]

-- `_set_operator_config`
unfoldable pub set_operator_config :
    Readings → Option Decimal → Option Decimal → AutoState → Result AutoError AutoState
set_operator_config readings base rate s =
    config_for readings (or_before base s.base_capital) (or_before rate s.ratio) s

unfoldable pub set_base_capital : Readings → Decimal → AutoState → Result AutoError AutoState
set_base_capital readings value s = do
  base ← normalize_money value
  set_operator_config readings (some base) none s

unfoldable pub set_ratio_percent : Readings → Decimal → AutoState → Result AutoError AutoState
set_ratio_percent readings value s = do
  rate ← normalize_ratio_percent value
  set_operator_config readings none (some rate) s

abbrev pub is_dirty : CoreRow → Bool
is_dirty row = not (row.qty == 0) || not (same row.cost_basis (of_ℕ 0))

-- `_preflight_launch`
unfoldable pub preflight_launch : Readings → AutoState → Result AutoError (Unit {0})
preflight_launch readings s =
    let checks = (do
      raise_if readings.open_orders orders_open
      raise_if (any is_dirty s.cores) ledger_dirty
      raise_if (not readings.ledgers_agree) mismatch
      raise_if (less readings.buying_power s.target_principal) too_little_power
      raise_if readings.portfolio_safe_mode in_safe_mode
      ok tt) in
    raise_if (not (configured s)) not_configured >> (if s.launch_authorized then ok tt else checks)

-- what an approved launch writes before its first flow
abbrev pub launched : Readings → AutoState → AutoState
launched readings s = record s {
  accounting_started = true;
  launch_authorized = true;
  quarantine = true;
  phase = startup_quarantine;
  onboarding_completed = true;
  ramp_base_principal = of_ℕ 0;
  ramp_target_principal = s.target_principal;
  ramp_stage = 1;
  ramp_stage_filled = none;
  ramp_stage_started = some readings.latest_completed;
}

abbrev pub relaunched : AutoState → Result AutoError AutoState
relaunched s =
    if leq s.effective_principal (of_ℕ 0) || leq s.units (of_ℕ 0)
    then raise accounting_incomplete
    else ok s

-- `authorize_launch`
unfoldable pub authorize_launch : Readings → AutoState → Result AutoError AutoState
authorize_launch readings s = do
  preflight_launch readings s
  elim s.launch_authorized [
    | true ↦ relaunched s
    | false ↦
        apply_external_flow launch_stage_1 readings
          (quantize_down 100 (s.target_principal ⊗ ramp_fraction 1)) (launched readings s)
  ]

-- `arm_startup_quarantine`
unfoldable pub arm_startup_quarantine : AutoState → AutoState
arm_startup_quarantine s = record s {
  quarantine = true;
  phase = if s.launch_authorized then startup_quarantine else setup;
}

-- `quarantine`; its reason is a log text
unfoldable pub quarantined : AutoState → AutoState
quarantined s = record s {
  quarantine = true;
  phase = auto_quarantine;
  operator_buy_halt = some true;
}

abbrev pub released : AutoState → AutoState
released s = record s { operator_buy_halt = some false; quarantine = false; phase = running }

abbrev pub in_phase : Phase → AutoState → AutoState × Bool
in_phase p s = (record s { phase = p }, false)

-- `try_release_quarantine`; `latched_later` and `blocked_later` are what other threads have made of
-- the latch, the safe mode and the orders by the time that the lock is held
unfoldable pub try_release_quarantine :
    Readings → (safety_ready latched_later blocked_later : Bool) → AutoState → AutoState × Bool
try_release_quarantine readings safety_ready latched_later blocked_later s =
    if not s.launch_authorized
    then in_phase (if configured s then ready else setup) s
    else if s.operator_halt_latched
    then in_phase operator_halt s
    else if readings.portfolio_safe_mode
    then in_phase safe_mode s
    else if not safety_ready || readings.open_orders
    then (s, false)
    else if latched_later
    then in_phase operator_halt (record s { operator_halt_latched = true })
    else if blocked_later
    then (s, false)
    else (released s, true)
