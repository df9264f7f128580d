-- ===== src/Core/Allocation/Defs.antt =====
-- Leverage, the month state and the weights. A feature that is NaN is `none`.
use jh_holdings.Prelude.{
  ℕ, ◌+◌, Option, none, some, List, [], ◌∷◌, Bool, true, false, not, ◌&&◌, ◌||◌, leb, ◌==◌,
  if◌then◌else◌,
}
use jh_holdings.Decimal.{Decimal, of_ℕ, ratio, ◌⊕◌, ◌⊖◌, ◌⊗◌, divide, leq, less, min, max}
use jh_holdings.Core.Allocation.Policy.{V322Policy}

-- the columns of `build_qqq_features` in one row
pub record QqqRow : Type 0 where
  pub close : Decimal
  pub sma_short : Option Decimal
  pub sma_long : Option Decimal
  pub ret_short : Option Decimal
  pub ret_medium : Option Decimal
  pub ret_long : Option Decimal
  pub volatility : Option Decimal
  pub sma_long_slope : Option Decimal

-- a row that `_row_ready` accepts: no feature is NaN
pub record ReadyRow : Type 0 where
  pub close : Decimal
  pub sma_short : Decimal
  pub sma_long : Decimal
  pub ret_short : Decimal
  pub ret_medium : Decimal
  pub ret_long : Decimal
  pub volatility : Decimal
  pub sma_long_slope : Decimal

infixl 5 ◌>>=◌
abbrev pub ◌>>=◌ : {A B : Type 0} → Option A → (A → Option B) → Option B
none >>= f = none
some a >>= f = f a

-- `_row_ready`
unfoldable pub row_ready : QqqRow → Option ReadyRow
row_ready row = do
  sma_short ← row.sma_short
  sma_long ← row.sma_long
  ret_short ← row.ret_short
  ret_medium ← row.ret_medium
  ret_long ← row.ret_long
  volatility ← row.volatility
  slope ← row.sma_long_slope
  some (record {
    close = row.close;
    sma_short = sma_short;
    sma_long = sma_long;
    ret_short = ret_short;
    ret_medium = ret_medium;
    ret_long = ret_long;
    volatility = volatility;
    sma_long_slope = slope;
  })

abbrev pub vote : Bool → ℕ
vote true = 1
vote false = 0

abbrev pub is_positive : Decimal → Bool
is_positive = less (of_ℕ 0)

-- `trend_vote` on a ready row; on any other it is false
unfoldable pub trend_vote : ReadyRow → V322Policy → Bool
trend_vote row policy = leb policy.trend_votes_required (
    vote (is_positive row.ret_short)
    + vote (is_positive row.ret_medium)
    + vote (is_positive row.ret_long)
    + vote (less row.sma_long row.sma_short)
    + vote (is_positive row.sma_long_slope))

unfoldable pub ready_leverage : ReadyRow → V322Policy → Decimal
ready_leverage row policy =
    if leq policy.volatility_brake row.volatility
    then policy.leverage_defensive
    else if leq row.close row.sma_long
    then policy.leverage_normal
    else if less row.sma_long row.sma_short
        && (is_positive row.ret_medium && is_positive row.ret_long)
    then policy.leverage_strong
    else if trend_vote row policy
    then policy.leverage_trend
    else policy.leverage_normal

unfoldable pub base_leverage : QqqRow → V322Policy → Decimal
base_leverage row policy = elim (row_ready row) [
  | none ↦ policy.leverage_normal
  | some ready ↦ ready_leverage ready policy
]

-- the two returns that it compares: `ret_long` of QQQ and `rs_return` of the benchmark
abbrev pub wins : Option Decimal → Option Decimal → Bool
wins none semi = false
wins (some qqq) none = false
wins (some qqq) (some semi) = is_positive semi && less qqq semi

unfoldable pub semiconductor_wins : QqqRow → Option Decimal → Bool
semiconductor_wins qqq_row rs_return = wins qqq_row.ret_long rs_return

pub record AllocationState : Type 0 where
  pub month : ℕ
  pub leverage : Decimal
  pub semiconductor_active : Bool

abbrev pub brakes : Option Decimal → V322Policy → Bool
brakes none policy = false
brakes (some v) policy = leq policy.volatility_brake v

-- the state at the first session of a month
unfoldable pub month_start : ℕ → QqqRow → Option Decimal → V322Policy → AllocationState
month_start month qqq_row rs_return policy = record {
  month = month;
  leverage = base_leverage qqq_row policy;
  semiconductor_active = semiconductor_wins qqq_row rs_return;
}

-- a later session of the month: risk is only taken away
unfoldable pub same_month :
    AllocationState → ℕ → QqqRow → Option Decimal → V322Policy → AllocationState
same_month previous month qqq_row rs_return policy = record {
  month = month;
  leverage =
      if brakes qqq_row.volatility policy && less policy.leverage_defensive previous.leverage
      then policy.leverage_defensive
      else previous.leverage;
  semiconductor_active =
      if previous.semiconductor_active && not (semiconductor_wins qqq_row rs_return)
      then false
      else previous.semiconductor_active;
}

unfoldable pub advance_state :
    Option AllocationState → ℕ → QqqRow → Option Decimal → V322Policy → AllocationState
advance_state none month qqq_row rs_return policy = month_start month qqq_row rs_return policy
advance_state (some previous) month qqq_row rs_return policy =
    if not (previous.month == month)
    then month_start month qqq_row rs_return policy
    else same_month previous month qqq_row rs_return policy

-- `ALLOCATION_SYMBOLS`
pub data AllocationSymbol : Type 0 where
  qqq tqqq soxl : AllocationSymbol

abbrev pub Weights : Type 0
Weights = List (AllocationSymbol × Decimal)

-- `{symbol: weight for ... if weight > floor}`
abbrev pub above : Decimal → Weights → Weights
above bound [] = []
above bound ((symbol, weight) ∷ rest) =
    let kept = above bound rest in if less bound weight then (symbol, weight) ∷ kept else kept

unfoldable pub base_weights : AllocationState → V322Policy → Weights
base_weights state policy =
    let sleeve = divide (state.leverage ⊖ of_ℕ 1) (of_ℕ 2) in
    if leq state.leverage (of_ℕ 1)
    then (qqq, max (of_ℕ 0) state.leverage) ∷ []
    else above (of_ℕ 0) (
        if state.semiconductor_active
        then (qqq, of_ℕ 1 ⊖ sleeve)
          ∷ (tqqq, sleeve ⊗ (of_ℕ 1 ⊖ policy.rs_sleeve_fraction))
          ∷ (soxl, sleeve ⊗ policy.rs_sleeve_fraction)
          ∷ []
        else (qqq, of_ℕ 1 ⊖ sleeve) ∷ (tqqq, sleeve) ∷ [])

abbrev pub same_symbol : AllocationSymbol → AllocationSymbol → Bool
same_symbol qqq qqq = true
same_symbol tqqq tqqq = true
same_symbol soxl soxl = true
same_symbol _ _ = false

-- `weights.get(symbol, 0.0)`
abbrev pub weight_of : AllocationSymbol → Weights → Decimal
weight_of symbol [] = of_ℕ 0
weight_of symbol ((key, weight) ∷ rest) =
    let later = weight_of symbol rest in if same_symbol key symbol then weight else later

-- `shift / len(active)` for each active symbol
abbrev pub share : Bool → Bool → Decimal → Decimal
share true true shift = divide shift (of_ℕ 2)
share _ _ shift = divide shift (of_ℕ 1)

unfoldable pub apply_jdss_overlay : Weights → Bool → Bool → V322Policy → Weights
apply_jdss_overlay weights active_tqqq active_soxl policy =
    let q = weight_of qqq weights in
    let t = weight_of tqqq weights in
    let s = weight_of soxl weights in
    let shift = if active_tqqq || active_soxl then min policy.jdss_overlay_weight q else of_ℕ 0 in
    let part = share active_tqqq active_soxl shift in
    above (ratio 1 1_000_000_000_000) (
      (qqq, q ⊖ shift)
      ∷ (tqqq, if active_tqqq then t ⊕ part else t)
      ∷ (soxl, if active_soxl then s ⊕ part else s)
      ∷ [])

unfoldable pub hwm_risk_budget : Decimal → Decimal → V322Policy → Decimal
hwm_risk_budget high_water current policy =
    let gain = max (of_ℕ 0) (high_water ⊖ policy.initial_capital) in
    let budget = policy.initial_capital ⊕ policy.hwm_reinvestment_fraction ⊗ gain in
    max (of_ℕ 0) (min budget current)
