-- ===== src/Auto/Ramp/Changes.antt =====
-- Any sequence of the service's changes, each of which may raise.
use jh_holdings.Prelude.{
  ◌≡◌, refl, subst, Option, none, some, List, [], ◌∷◌, Bool, true, false, not, ◌&&◌, ◌||◌, arith,
  if◌then◌else◌, Result, ok, raise, ok-injective, >>=-eq-ok, raise_if-eq-ok,
}
use jh_holdings.Decimal.{Decimal, of_ℕ, ratio, divide, ◌≼◌, leq, quantize, quantize_down}
use jh_holdings.Decimal.Laws.{≼_trans, ≼_of_parts}
use jh_holdings.Decimal.Quantize.{down_zero}
use jh_holdings.Auto.State.{
  AutoState, Readings, Phase, AutoError, bad_capital, bad_ratio, configured,
}
use jh_holdings.Auto.Config.{normalize_money, normalize_ratio_percent}
use jh_holdings.Auto.Launch.{
  set_base_capital, set_ratio_percent, authorize_launch, arm_startup_quarantine, quarantined,
  in_phase, released, try_release_quarantine,
}
use jh_holdings.Auto.Ramp.{advance_ramp_if_ready}
use jh_holdings.Auto.Ramp.Bound.{WithinTarget}
use jh_holdings.Auto.Ramp.Kept.{set_operator_config-WithinTarget, authorize_launch-WithinTarget}
use jh_holdings.Auto.Ramp.Advance.{Kept, advance_ramp-Kept}

pub data Change : Type 0 where
  base_set ratio_set : Decimal → Change
  launch advance start quarantine : Change
  release : (safety_ready latched_later blocked_later : Bool) → Change

abbrev or_same : Result AutoError AutoState → AutoState → AutoState
or_same (ok s') s = s'
or_same (raise e) s = s

abbrev or_still : Result AutoError (AutoState × Bool) → AutoState → AutoState
or_still (ok (s', moved)) s = s'
or_still (raise e) s = s

unfoldable pub changed : Readings → Change → AutoState → AutoState
changed r (base_set v) s = or_same (set_base_capital r v s) s
changed r (ratio_set v) s = or_same (set_ratio_percent r v s) s
changed r launch s = or_same (authorize_launch r s) s
changed r advance s = or_still (advance_ramp_if_ready r s) s
changed r start s = arm_startup_quarantine s
changed r quarantine s = quarantined s
changed r (release safe latched blocked) s = (try_release_quarantine r safe latched blocked s).0

unfoldable pub all_changed : List (Readings × Change) → AutoState → AutoState
all_changed [] s = s
all_changed ((r, c) ∷ rest) s = all_changed rest (changed r c s)

quantize-nonneg : (x : Decimal) → of_ℕ 0 ≼ x → of_ℕ 0 ≼ quantize 10000 x
unfolding quantize
quantize-nonneg x h = ≼_of_parts (of_ℕ 0) (quantize 10000 x) (omega (arith, down_zero 9999 x h))

flags-WithinTarget :
    (s : AutoState) (p : Phase) (q l : Bool) (h : Option Bool)
    → WithinTarget s
    → WithinTarget
        (record s { phase = p; quarantine = q; operator_halt_latched = l; operator_buy_halt = h })
flags-WithinTarget s p q l h w = record {
  base_nonneg = w.base_nonneg;
  ratio_nonneg = w.ratio_nonneg;
  opened_nonneg = w.opened_nonneg;
  opened_le = w.opened_le;
  ramp = w.ramp;
  before_launch = w.before_launch;
}

or_same-WithinTarget :
    (r : Result AutoError AutoState) (s : AutoState)
    → ((s' : AutoState) → r ≡ ok s' → WithinTarget s')
    → WithinTarget s
    → WithinTarget (or_same r s)
or_same-WithinTarget (ok s') s k w = k s' refl
or_same-WithinTarget (raise e) s k w = w

or_still-WithinTarget :
    (r : Result AutoError (AutoState × Bool)) (s : AutoState)
    → Kept r
    → WithinTarget s
    → WithinTarget (or_still r s)
or_still-WithinTarget (ok (s', moved)) s k w = k
or_still-WithinTarget (raise e) s k w = w

base_set-WithinTarget :
    (r : Readings) (v : Decimal) (s s' : AutoState)
    → WithinTarget s
    → set_base_capital r v s ≡ ok s'
    → WithinTarget s'
unfolding set_base_capital normalize_money
base_set-WithinTarget r v s s' w h =
    let (base, normal, rest) = >>=-eq-ok (normalize_money v) _ h in
    let (t, e) =
      raise_if-eq-ok
        (not (leq (of_ℕ 100) (quantize_down 100 v) && leq (quantize_down 100 v) (of_ℕ 10000000)))
        bad_capital _ normal in
    let enough : of_ℕ 100 ≼ quantize_down 100 v = ground arith in
    set_operator_config-WithinTarget r (some base) none s s' w
      (subst (λ x. of_ℕ 0 ≼ x) (ok-injective e)
        (≼_trans (of_ℕ 0) (of_ℕ 100) (quantize_down 100 v)
          (≼_of_parts (of_ℕ 0) (of_ℕ 100) (omega arith)) enough))
      tt rest

ratio_set-WithinTarget :
    (r : Readings) (v : Decimal) (s s' : AutoState)
    → WithinTarget s
    → set_ratio_percent r v s ≡ ok s'
    → WithinTarget s'
unfolding set_ratio_percent normalize_ratio_percent
ratio_set-WithinTarget r v s s' w h =
    let (rate, normal, rest) = >>=-eq-ok (normalize_ratio_percent v) _ h in
    let (t, e) =
      raise_if-eq-ok
        (not (leq (ratio 1 100) (divide v (of_ℕ 100)) && leq (divide v (of_ℕ 100)) (of_ℕ 1)))
        bad_ratio _ normal in
    let enough : ratio 1 100 ≼ divide v (of_ℕ 100) = ground arith in
    set_operator_config-WithinTarget r none (some rate) s s' w tt
      (subst (λ x. of_ℕ 0 ≼ x) (ok-injective e)
        (quantize-nonneg (divide v (of_ℕ 100)) (
          ≼_trans (of_ℕ 0) (ratio 1 100) (divide v (of_ℕ 100))
            (≼_of_parts (of_ℕ 0) (ratio 1 100) (omega arith)) enough)))
      rest

release-WithinTarget :
    (r : Readings) (safe latched blocked : Bool) (s : AutoState)
    → WithinTarget s
    → WithinTarget (try_release_quarantine r safe latched blocked s).0
unfolding try_release_quarantine
release-WithinTarget r safe latched blocked s w =
    by_tests (not s.launch_authorized) s.operator_halt_latched r.portfolio_safe_mode
      (not safe || r.open_orders) latched blocked
  where
    by_tests :
        (a b c d e f : Bool)
        → WithinTarget
            (if a
              then in_phase (if configured s then Phase.ready else Phase.setup) s
              else if b
              then in_phase Phase.operator_halt s
              else if c
              then in_phase Phase.safe_mode s
              else if d
              then (s, false)
              else if e
              then in_phase Phase.operator_halt (record s { operator_halt_latched = true })
              else if f
              then (s, false)
              else (released s, true)).0
    by_tests true b c d e f =
        flags-WithinTarget s _ s.quarantine s.operator_halt_latched s.operator_buy_halt w
    by_tests false true c d e f =
        flags-WithinTarget s _ s.quarantine s.operator_halt_latched s.operator_buy_halt w
    by_tests false false true d e f =
        flags-WithinTarget s _ s.quarantine s.operator_halt_latched s.operator_buy_halt w
    by_tests false false false true e f = w
    by_tests false false false false true f =
        flags-WithinTarget s _ s.quarantine true s.operator_buy_halt w
    by_tests false false false false false true = w
    by_tests false false false false false false =
        flags-WithinTarget s _ false s.operator_halt_latched (some false) w

changed-WithinTarget :
    (r : Readings) (c : Change) (s : AutoState) → WithinTarget s → WithinTarget (changed r c s)
unfolding changed arm_startup_quarantine quarantined
changed-WithinTarget r (base_set v) s w =
    or_same-WithinTarget _ s (λ s' h. base_set-WithinTarget r v s s' w h) w
changed-WithinTarget r (ratio_set v) s w =
    or_same-WithinTarget _ s (λ s' h. ratio_set-WithinTarget r v s s' w h) w
changed-WithinTarget r launch s w =
    or_same-WithinTarget _ s (λ s' h. authorize_launch-WithinTarget r s s' w h) w
changed-WithinTarget r advance s w = or_still-WithinTarget _ s (advance_ramp-Kept r s w) w
changed-WithinTarget r start s w =
    flags-WithinTarget s _ true s.operator_halt_latched s.operator_buy_halt w
changed-WithinTarget r quarantine s w =
    flags-WithinTarget s _ true s.operator_halt_latched (some true) w
changed-WithinTarget r (release safe latched blocked) s w =
    release-WithinTarget r safe latched blocked s w

-- From a state within its target, through any sequence of settings, launches, ramp steps,
-- starts, quarantines and releases, whatever they read and whether they raise or not, the
-- effective principal is not negative and at most the target principal, a ramp that is on goes
-- from an amount that is not negative to one within the target, and nothing is open before the
-- launch.
pub all_changed-WithinTarget :
    (changes : List (Readings × Change)) (s : AutoState)
    → WithinTarget s
    → WithinTarget (all_changed changes s)
unfolding all_changed
all_changed-WithinTarget [] s w = w
all_changed-WithinTarget ((r, c) ∷ rest) s w =
    all_changed-WithinTarget rest (changed r c s) (changed-WithinTarget r c s w)
