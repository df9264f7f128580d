-- ===== src/Auto/State.antt =====
-- automation/service.py: what the service keeps in `system_state`, as the values that its texts
-- spell, with the tables that it writes. A text that spells no value raises in the source; here a
-- value is there. What the clock, the broker and the other services answer is given with a call.
use jh_holdings.Prelude.{ℕ, String, Option, none, some, List, [], ◌∷◌, map, Bool, true, false, ◌&&◌}
use jh_holdings.Decimal.{Decimal, of_ℕ, less}
use jh_holdings.Store.Signals.{Signals, invalidate_active_signals}
use jh_holdings.Store.Fills.{CoreRow}

pub data Phase : Type 0 where
  setup ready startup_quarantine auto_quarantine operator_halt safe_mode running : Phase

abbrev pub is_running : Phase → Bool
is_running running = true
is_running _ = false

pub data EventType : Type 0 where
  config_change capital_reduction capital_increase_stage_1 launch_stage_1 : EventType
  capital_ramp_stage : ℕ → EventType

-- a row of `jh_auto_capital_events`
pub record CapitalEvent : Type 0 where
  pub event_type : EventType
  pub old_target : Decimal
  pub new_target : Decimal
  pub old_effective : Decimal
  pub new_effective : Decimal
  pub external_flow : Decimal

pub record AutoState : Type 0 where
  pub base_capital : Option Decimal
  pub ratio : Option Decimal
  pub target_principal : Decimal
  pub effective_principal : Decimal
  pub launch_authorized : Bool
  pub accounting_started : Bool
  pub quarantine : Bool
  pub operator_halt_latched : Bool
  pub operator_buy_halt : Option Bool
  pub phase : Phase
  pub ramp_stage : ℕ
  pub ramp_base_principal : Decimal
  pub ramp_target_principal : Decimal
  pub ramp_stage_started : Option ℕ
  pub ramp_stage_filled : Option ℕ
  pub config_revision : ℕ
  pub units : Decimal
  pub nav : Option Decimal
  pub high_water : Option Decimal
  pub risk_budget : Decimal
  pub target_generation : Bool
  pub onboarding_completed : Bool
  pub cores : List CoreRow
  pub signals : Signals
  pub events : List CapitalEvent

-- what a call of the service reads from elsewhere
pub record Readings : Type 0 where
  pub open_orders : Bool
  pub portfolio_safe_mode : Bool
  pub latest_completed : ℕ
  pub completed_sessions_since : ℕ → ℕ
  -- `marked_managed_equity`; `none` is a raise of it
  pub marked_equity : Option Decimal
  pub ledgers_agree : Bool
  pub buying_power : Decimal

pub data AutoError : Type 0 where
  bad_capital bad_ratio orders_open ramp_not_done not_configured ledger_dirty mismatch : AutoError
  too_little_power in_safe_mode accounting_incomplete negative_units no_equity : AutoError

abbrev pub is_given : Option Decimal → Bool
is_given none = false
is_given (some x) = true

-- `AutoSettings.configured`
abbrev pub configured : AutoState → Bool
configured s = is_given s.base_capital && (is_given s.ratio && less (of_ℕ 0) s.target_principal)

abbrev pub no_target : CoreRow → CoreRow
no_target row = record row { target_qty = 0 }

abbrev pub invalidate_all : List String → Signals → Signals
invalidate_all [] signals = signals
invalidate_all (symbol ∷ rest) signals =
    invalidate_all rest (invalidate_active_signals symbol none 0 signals)

-- `ALLOCATION_SYMBOLS`
abbrev pub allocation_symbols : List String
allocation_symbols = "QQQ" ∷ "TQQQ" ∷ "SOXL" ∷ []

-- `_invalidate_target_generation`
unfoldable pub invalidate_target_generation : AutoState → AutoState
invalidate_target_generation s = record s {
  signals = invalidate_all allocation_symbols s.signals;
  cores = map no_target s.cores;
  target_generation = false;
}

-- `bootstrap_repository` on an empty database
abbrev pub bootstrapped : List CoreRow → Signals → AutoState
bootstrapped cores signals = record {
  base_capital = none;
  ratio = none;
  target_principal = of_ℕ 0;
  effective_principal = of_ℕ 0;
  launch_authorized = false;
  accounting_started = false;
  quarantine = true;
  operator_halt_latched = false;
  operator_buy_halt = none;
  phase = setup;
  ramp_stage = 0;
  ramp_base_principal = of_ℕ 0;
  ramp_target_principal = of_ℕ 0;
  ramp_stage_started = none;
  ramp_stage_filled = none;
  config_revision = 0;
  units = of_ℕ 0;
  nav = some (of_ℕ 1);
  high_water = none;
  risk_budget = of_ℕ 0;
  target_generation = false;
  onboarding_completed = false;
  cores = cores;
  signals = signals;
  events = [];
}
