-- ===== src/Auto/Tests.antt =====
-- A launch, its ramp and a reduction of the capital.
use jh_holdings.Prelude.{refl, inl, inr, some, List, [], ◌∷◌, true, false}
use jh_holdings.Decimal.{of_ℕ, leq}
use jh_holdings.Auto.State.{AutoState, Readings, bootstrapped}
use jh_holdings.Auto.Ramp.Bound.{WithinTarget}
use jh_holdings.Auto.Ramp.Changes.{
  Change, base_set, ratio_set, launch, release, advance, all_changed, all_changed-WithinTarget,
}

abbrev readings : Readings
readings = record {
  open_orders = false;
  portfolio_safe_mode = false;
  latest_completed = 739_000;
  completed_sessions_since = λ d. 3;
  marked_equity = some (of_ℕ 5_100);
  ledgers_agree = true;
  buying_power = of_ℕ 20_000;
}

abbrev changes : List (Readings × Change)
changes =
    (readings, base_set (of_ℕ 20_000))
    ∷ (readings, ratio_set (of_ℕ 50))
    ∷ (readings, launch)
    ∷ (readings, release true false false)
    ∷ (readings, advance)
    ∷ (readings, ratio_set (of_ℕ 10))
    ∷ []

abbrev start : AutoState
start = bootstrapped [] []

all_changed-WithinTarget_example : WithinTarget (all_changed changes start)
unfolding leq
all_changed-WithinTarget_example = all_changed-WithinTarget changes start (record {
  base_nonneg = tt;
  ratio_nonneg = tt;
  opened_nonneg = refl;
  opened_le = refl;
  ramp = inl refl;
  before_launch = inr (refl, refl);
})
