-- ===== src/Core/Strategy/Guards.antt =====
-- core/strategy.py: the sector guard and the trend guard.
use jh_holdings.Prelude.{
  ℕ, String, List, [], ◌∷◌, ◌++◌, Bool, false, not, ◌&&◌, ◌||◌, ◌==◌, if◌then◌else◌, any, all,
  is_empty, str_eq,
}
use jh_holdings.Decimal.{less}
use jh_holdings.Core.Models.{IndicatorSnapshot}
use jh_holdings.Core.Config.{
  StrategyConfig, any_below_ema60, all_below_ema60, SectorRule, TrendRule, ema20_below_ema60,
  price_and_ema20_below_ema60,
}

-- `sector_benchmarks`: a missing dictionary is the empty one
abbrev pub Benchmarks : Type 0
Benchmarks = List (String × IndicatorSnapshot)

abbrev find_benchmark : String → Benchmarks → List IndicatorSnapshot
find_benchmark name [] = []
find_benchmark name ((key, snapshot) ∷ rest) =
    if str_eq key name then snapshot ∷ [] else find_benchmark name rest

-- `[benchmarks[name] for name in candidates if name in benchmarks]`
abbrev pub available_benchmarks : List String → Benchmarks → List IndicatorSnapshot
available_benchmarks [] benchmarks = []
available_benchmarks (name ∷ names) benchmarks =
    find_benchmark name benchmarks ++ available_benchmarks names benchmarks

abbrev pub below_ema60 : IndicatorSnapshot → Bool
below_ema60 s = less s.close s.ema60

abbrev apply_sector_rule : SectorRule → List IndicatorSnapshot → Bool
apply_sector_rule all_below_ema60 available = all below_ema60 available
apply_sector_rule any_below_ema60 available = any below_ema60 available

unfoldable pub soxl_sector_guard_blocks : String → ℕ → Benchmarks → StrategyConfig → Bool
soxl_sector_guard_blocks symbol target_stage benchmarks config =
    let guard = config.sector_guard in
    let available = available_benchmarks guard.benchmark_candidates benchmarks in
    if not (str_eq symbol "SOXL") || not guard.enabled
    then false
    else if not (any (λ stage. stage == target_stage) guard.blocked_stages)
    then false
    else if is_empty benchmarks
    then false
    else if is_empty available
    then false
    else apply_sector_rule guard.rule available

abbrev apply_trend_rule : TrendRule → IndicatorSnapshot → Bool
apply_trend_rule ema20_below_ema60 s = less s.ema20 s.ema60
apply_trend_rule price_and_ema20_below_ema60 s = less s.close s.ema60 && less s.ema20 s.ema60

unfoldable pub first_entry_trend_guard_blocks : IndicatorSnapshot → StrategyConfig → Bool
first_entry_trend_guard_blocks snapshot config =
    let guard = config.trend_guard in
    if not guard.enabled
    then false
    else if not (any (λ name. str_eq name snapshot.symbol) guard.symbols)
    then false
    else apply_trend_rule guard.rule snapshot
