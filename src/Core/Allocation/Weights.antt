-- ===== src/Core/Allocation/Weights.antt =====
-- The weights at the frozen policy.
use jh_holdings.Prelude.{◌≡◌, refl, Bool, true, false, ◌&&◌, arith}
use jh_holdings.Decimal.{
  Decimal, of_ℕ, ratio, ◌⊕◌, ◌⊖◌, ◌⊗◌, divide, leq, less, same, min, max, ◌≼◌, ◌≈◌,
}
use jh_holdings.Core.Allocation.Policy.{V322Policy}
use jh_holdings.Core.Allocation.Defs.{
  AllocationState, Weights, weight_of, qqq, tqqq, soxl, base_weights, apply_jdss_overlay,
}
use jh_holdings.Core.Allocation.State.{IsLevel, defensive, normal, trend, strong}

-- The values that `validate` demands, as strategy.yaml has them.
abbrev pub frozen : V322Policy
frozen = record {
  initial_capital = of_ℕ 50_000;
  hwm_reinvestment_fraction = ratio 3 4;
  sma_short = 50;
  sma_long = 200;
  slope_lookback = 21;
  momentum_short = 21;
  momentum_medium = 63;
  momentum_long = 126;
  volatility_window = 20;
  volatility_brake = ratio 3 10;
  trend_votes_required = 3;
  leverage_defensive = ratio 1 2;
  leverage_normal = of_ℕ 1;
  leverage_trend = ratio 5 4;
  leverage_strong = ratio 3 2;
  rs_benchmark = "SOXX";
  rs_lookback = 126;
  rs_sleeve_fraction = ratio 1 2;
  jdss_overlay_weight = ratio 1 20;
  first_session_close = true;
}

-- The weight of all assets, and the exposure with the two leveraged funds counted three times.
unfoldable pub invested : Weights → Decimal
invested w = weight_of qqq w ⊕ (weight_of tqqq w ⊕ weight_of soxl w)

unfoldable pub exposure : Weights → Decimal
exposure w = weight_of qqq w ⊕ of_ℕ 3 ⊗ (weight_of tqqq w ⊕ weight_of soxl w)

at_level : Decimal → Bool → AllocationState
at_level l semi = record { month = 0; leverage = l; semiconductor_active = semi }

-- The facts of a level, as one test.
weights_hold : Decimal → Bool → Bool → Bool → Bool
weights_hold l semi t s =
    let w = base_weights (at_level l semi) frozen in
    let w' = apply_jdss_overlay w t s frozen in
    same (exposure w) l
    && (same (invested w) (min (of_ℕ 1) l)
        && (same (invested w') (invested w)
            && (leq (of_ℕ 0) (weight_of qqq w') && leq (exposure w') (l ⊕ ratio 1 10))))

for_both : (Bool → Bool) → Bool
for_both p = p true && p false

for_all : (Bool → Bool → Bool → Bool) → Bool
for_all p = for_both (λ a. for_both (λ b. for_both (λ c. p a b c)))

for_both_sound : (p : Bool → Bool) → for_both p ≡ true → (b : Bool) → p b ≡ true
unfolding for_both
for_both_sound p h true = ground arith
for_both_sound p h false = ground arith

for_all_sound : (p : Bool → Bool → Bool → Bool) → for_all p ≡ true → (a b c : Bool) → p a b c ≡ true
unfolding for_all
for_all_sound p h a b c =
    for_both_sound (p a b)
      (for_both_sound (λ b'. for_both (λ c'. p a b' c'))
        (for_both_sound (λ a'. for_both (λ b'. for_both (λ c'. p a' b' c'))) h a) b)
      c

open_weights : Unit {0}
unfolding weights_hold for_all for_both at_level exposure invested base_weights apply_jdss_overlay
    same less leq min max divide ◌⊕◌ ◌⊖◌ ◌⊗◌
open_weights = tt

defensive_holds : for_all (weights_hold (ratio 1 2)) ≡ true
unfolding open_weights
defensive_holds = refl

normal_holds : for_all (weights_hold (of_ℕ 1)) ≡ true
unfolding open_weights
normal_holds = refl

trend_holds : for_all (weights_hold (ratio 5 4)) ≡ true
unfolding open_weights
trend_holds = refl

strong_holds : for_all (weights_hold (ratio 3 2)) ≡ true
unfolding open_weights
strong_holds = refl

level_holds : (l : Decimal) → IsLevel frozen l → (semi t s : Bool) → weights_hold l semi t s ≡ true
level_holds l (defensive e) a t s =
    rw e (for_all_sound (weights_hold (ratio 1 2)) defensive_holds a t s)
level_holds l (normal e) a t s = rw e (for_all_sound (weights_hold (of_ℕ 1)) normal_holds a t s)
level_holds l (trend e) a t s = rw e (for_all_sound (weights_hold (ratio 5 4)) trend_holds a t s)
level_holds l (strong e) a t s = rw e (for_all_sound (weights_hold (ratio 3 2)) strong_holds a t s)

-- The weights read the leverage and the sleeve of a state, and not its month.
base_weights-at_level :
    (state : AllocationState)
    → base_weights state frozen
      ≡ base_weights (at_level state.leverage state.semiconductor_active) frozen
unfolding base_weights at_level
base_weights-at_level state = refl

read_tests :
    (l : Decimal) (semi t s : Bool)
    → weights_hold l semi t s ≡ true
    → let w = base_weights (at_level l semi) frozen in
      let w' = apply_jdss_overlay w t s frozen in
      (exposure w ≈ l)
      × (invested w ≈ min (of_ℕ 1) l)
      × (invested w' ≈ invested w)
      × (of_ℕ 0 ≼ weight_of qqq w')
      × (exposure w' ≼ l ⊕ ratio 1 10)
unfolding weights_hold same
read_tests l semi t s h = ground arith

-- At each level of the frozen policy the base weights carry exactly the leverage, with the
-- leveraged funds counted three times, and invest the leverage or at most all the capital; the
-- overlay keeps the invested weight, never makes the QQQ weight negative, and leaves an exposure
-- of at most a tenth above the leverage.
pub weights_carry_leverage :
    (state : AllocationState) (active_tqqq active_soxl : Bool)
    → IsLevel frozen state.leverage
    → let w = base_weights state frozen in
      let w' = apply_jdss_overlay w active_tqqq active_soxl frozen in
      (exposure w ≈ state.leverage)
      × (invested w ≈ min (of_ℕ 1) state.leverage)
      × (invested w' ≈ invested w)
      × (of_ℕ 0 ≼ weight_of qqq w')
      × (exposure w' ≼ state.leverage ⊕ ratio 1 10)
weights_carry_leverage state t s h = rw (base_weights-at_level state) (
    read_tests state.leverage state.semiconductor_active t s
      (level_holds state.leverage h state.semiconductor_active t s))
