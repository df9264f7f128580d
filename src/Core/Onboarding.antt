-- ===== src/Core/Onboarding.antt =====
-- core/initial_onboarding.py, application/initial_onboarding_portfolio.py and core/twin_core.py: the
-- staged first deployment and target counts.
pub mod Laws
pub mod Deploys
use jh_holdings.Prelude.{
  ℕ, zero, suc, ◌-◌, Option, none, some, List, [], ◌∷◌, Bool, true, false, not, ◌&&◌, ◌||◌, ltb,
  leb, if◌then◌else◌, is_empty, length, get_elem?, Result, ok, raise, ◌>>=◌, ◌>>◌, raise_if,
}
use Prim.Native.Nat.{min as least}
use jh_holdings.Decimal.{Decimal, of_ℕ, ◌⊕◌, ◌⊗◌, divide, leq, less, same, floor}

pub data OnboardingError : Type 0 where
  no_fractions fraction_out_of_range not_increasing last_not_full stage_out_of_range :
      OnboardingError
  bad_fraction bad_stage : OnboardingError

-- a count of sessions is not negative here, so its check in `validate` never fires
pub record InitialOnboardingPolicy : Type 0 where
  pub enabled : Bool
  pub cumulative_fractions : List Decimal
  pub minimum_sessions_between_stages : ℕ

-- the loop of `validate`, with the fraction before
unfoldable pub check_fractions : Decimal → List Decimal → Result OnboardingError (Unit {0})
check_fractions previous [] = ok tt
check_fractions previous (fraction ∷ rest) = do
  raise_if (not (less (of_ℕ 0) fraction && leq fraction (of_ℕ 1))) fraction_out_of_range
  raise_if (leq fraction previous) not_increasing
  check_fractions fraction rest

-- `fractions[-1] != 1`
abbrev pub last_is_full : List Decimal → Bool
last_is_full [] = false
last_is_full (f ∷ []) = same f (of_ℕ 1)
last_is_full (f ∷ g ∷ rest) = last_is_full (g ∷ rest)

unfoldable pub validate : InitialOnboardingPolicy → Result OnboardingError (Unit {0})
validate policy = do
  raise_if (is_empty policy.cumulative_fractions) no_fractions
  check_fractions (of_ℕ 0) policy.cumulative_fractions
  raise_if (not (last_is_full policy.cumulative_fractions)) last_not_full
  ok tt

unfoldable pub total_stages : InitialOnboardingPolicy → ℕ
total_stages policy = length policy.cumulative_fractions

abbrev or_range : Option Decimal → Result OnboardingError Decimal
or_range none = raise stage_out_of_range
or_range (some f) = ok f

unfoldable pub fraction_for_stage : InitialOnboardingPolicy → ℕ → Result OnboardingError Decimal
fraction_for_stage policy zero = raise stage_out_of_range
fraction_for_stage policy (suc i) = or_range (get_elem? policy.cumulative_fractions i)

-- `int(Decimal(full_target) * fraction)`; a share count is not negative here
unfoldable pub scaled_target_quantity : ℕ → Decimal → Result OnboardingError ℕ
scaled_target_quantity full fraction = do
  raise_if (not (leq (of_ℕ 0) fraction && leq fraction (of_ℕ 1))) bad_fraction
  if same fraction (of_ℕ 1) then ok full else ok (floor (of_ℕ full ⊗ fraction))

pub data OnboardingStatus : Type 0 where
  not_started active completed bypassed disabled : OnboardingStatus

-- `onboarding_stage`, of the number that the stored text spells; a missing or empty text is 0
unfoldable pub onboarding_stage : InitialOnboardingPolicy → ℕ → Result OnboardingError ℕ
onboarding_stage policy stored = do raise_if (ltb (total_stages policy) stored) bad_stage; ok stored

-- `_effective_fraction`
unfoldable pub effective_fraction :
    InitialOnboardingPolicy → OnboardingStatus → ℕ → Result OnboardingError Decimal
effective_fraction policy not_started stored = ok (of_ℕ 0)
effective_fraction policy active stored = do
  stage ← onboarding_stage policy stored
  if ltb stage 1 then ok (of_ℕ 0) else fraction_for_stage policy stage
effective_fraction policy _ stored = ok (of_ℕ 1)

-- `_effective_target_quantity`, of the target and the shares of a core row
unfoldable pub effective_target_quantity :
    InitialOnboardingPolicy
    → OnboardingStatus
    → (stored full_target current_qty : ℕ) → Result OnboardingError ℕ
effective_target_quantity policy not_started stored full current = ok (least current full)
effective_target_quantity policy active stored full current = do
  fraction ← effective_fraction policy active stored
  scaled_target_quantity full fraction
effective_target_quantity policy _ stored full current = ok full

-- `twin_core.target_quantity`
unfoldable pub target_quantity : Decimal → Decimal → Decimal → Decimal → ℕ
target_quantity equity target_weight price fee =
    if leq equity (of_ℕ 0) || (leq target_weight (of_ℕ 0) || leq price (of_ℕ 0))
    then 0
    else floor (divide (equity ⊗ target_weight) (price ⊗ (of_ℕ 1 ⊕ fee)))
