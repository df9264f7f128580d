-- ===== src/Auto/Ramp.antt =====
-- automation/service.py: `_stage_filled` and `advance_ramp_if_ready`.
pub mod Rounding
pub mod Bound
pub mod Kept
pub mod Advance
pub mod Changes
use jh_holdings.Prelude.{
  ℕ, ◌+◌, String, Option, none, some, List, [], ◌∷◌, Bool, true, false, not, ◌&&◌, ◌||◌, ◌==◌, leb,
  ltb, any, all, str_eq, if◌then◌else◌, Result, ok, raise, ◌>>=◌,
}
use jh_holdings.Store.Fills.{CoreRow}
use jh_holdings.Auto.State.{
  AutoState, Readings, allocation_symbols, capital_ramp_stage, AutoError, is_running,
}
use jh_holdings.Auto.Flow.{apply_external_flow}
use jh_holdings.Auto.Launch.{ramp_principal, ramp_to}

abbrev pub of_symbol : String → CoreRow → Bool
of_symbol symbol row = str_eq row.symbol symbol

abbrev pub at_target : CoreRow → Bool
at_target row = not (any (str_eq row.symbol) allocation_symbols) || leb row.target_qty row.qty

-- `_stage_filled`
unfoldable pub stage_filled : Readings → AutoState → Bool
stage_filled readings s =
    s.target_generation
    && (not readings.open_orders
        && (all (λ symbol. any (of_symbol symbol) s.cores) allocation_symbols
            && all at_target s.cores))

-- `text != "0"` of the halt's text
abbrev pub not_released : Option Bool → Bool
not_released none = true
not_released (some halted) = halted

unfoldable pub ramp_is_blocked : Readings → AutoState → Bool
ramp_is_blocked readings s =
    not s.launch_authorized
    || (s.ramp_stage == 0
        || (s.operator_halt_latched
            || (s.quarantine
                || (not (is_running s.phase)
                    || (not_released s.operator_buy_halt
                        || (readings.portfolio_safe_mode || readings.open_orders))))))

abbrev pub unfilled : AutoState → AutoState
unfilled s = record s { ramp_stage_filled = none }

abbrev pub completed_ramp : AutoState → AutoState
completed_ramp s = record s { ramp_stage = 0; ramp_stage_filled = none }

abbrev pub advanced : Result AutoError AutoState → Result AutoError (AutoState × Bool)
advanced (ok s) = ok (s, true)
advanced (raise e) = raise e

-- the next stage, after the sessions that a filled stage waits
unfoldable pub next_stage : Readings → ℕ → AutoState → Result AutoError (AutoState × Bool)
next_stage readings filled s =
    let opened = advanced (
      apply_external_flow (capital_ramp_stage (s.ramp_stage + 1)) readings
        (ramp_principal s.ramp_base_principal s.ramp_target_principal (s.ramp_stage + 1))
        (ramp_to (s.ramp_stage + 1) s.ramp_base_principal s.ramp_target_principal
          (some readings.latest_completed) s)) in
    if s.ramp_stage == 3
    then ok (completed_ramp s, true)
    else if ltb (readings.completed_sessions_since filled) 3
    then ok (s, false)
    else opened

-- the session at which the stage was found filled, noted the first time
abbrev pub with_filled : Option ℕ → Readings → AutoState → Result AutoError (AutoState × Bool)
with_filled none readings s =
    next_stage readings readings.latest_completed
      (record s { ramp_stage_filled = some readings.latest_completed })
with_filled (some date) readings s = next_stage readings date s

-- `advance_ramp_if_ready`
unfoldable pub advance_ramp_if_ready : Readings → AutoState → Result AutoError (AutoState × Bool)
advance_ramp_if_ready readings s =
    let ready = with_filled s.ramp_stage_filled readings s in
    if ramp_is_blocked readings s
    then ok (s, false)
    else if stage_filled readings s
    then ready
    else ok (unfilled s, false)
