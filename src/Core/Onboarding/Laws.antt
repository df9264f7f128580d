-- ===== src/Core/Onboarding/Laws.antt =====
-- The checks of `validate`, and the counts of a target.
use jh_holdings.Prelude.{
  ℕ, ◌≤◌, ◌≡◌, inl, inr, List, [], ◌∷◌, true, not, ◌&&◌, ◌||◌, arith, is_empty, ok, Bool-cases,
  >>=-eq-ok, raise_if-eq-ok, ok-injective, subst,
}
use jh_holdings.Decimal.{Decimal, of_ℕ, ◌⊕◌, ◌⊗◌, leq, less, same, floor, ◌≼◌, ◌≺◌}
use jh_holdings.Decimal.Laws.{
  ≼_trans, ≼_of_≺, ≺_of_not_leq, ⊗_mono_right, ⊗_pos, one_more-pos, of_ℕ_mono, of_ℕ_reflect,
  ⊗-one_≼, ⊗-nonneg, nothing-≼,
}
use jh_holdings.Decimal.Rounding.{of_ℕ-floor-≼, floor-divide-⊗}
use jh_holdings.Core.Onboarding.{
  InitialOnboardingPolicy, check_fractions, last_is_full, validate, scaled_target_quantity,
  target_quantity, no_fractions, fraction_out_of_range, not_increasing, last_not_full, bad_fraction,
}

-- Each fraction is above the one before it, in (0, 1].
abbrev pub Ascending : Decimal → List Decimal → Type 0
Ascending previous [] = Unit
Ascending previous (f ∷ rest) = (of_ℕ 0 ≺ f) × (f ≼ of_ℕ 1) × (previous ≺ f) × Ascending f rest

check_fractions-Ascending :
    (fs : List Decimal) (previous : Decimal)
    → check_fractions previous fs ≡ ok tt
    → Ascending previous fs
unfolding check_fractions
check_fractions-Ascending [] previous e = tt
check_fractions-Ascending (f ∷ rest) previous e =
    let (range, e1) =
      raise_if-eq-ok (not (less (of_ℕ 0) f && leq f (of_ℕ 1))) fraction_out_of_range _ e in
    let (more, e2) = raise_if-eq-ok (leq f previous) not_increasing _ e1 in
    (ground arith, ground arith, ≺_of_not_leq f previous more, check_fractions-Ascending rest f e2)

-- Every policy that `validate` accepts has stages that strictly increase within (0, 1], and the
-- last of them is the whole target.
pub validate-Ascending :
    (policy : InitialOnboardingPolicy)
    → validate policy ≡ ok tt
    → Ascending (of_ℕ 0) policy.cumulative_fractions
      × (last_is_full policy.cumulative_fractions ≡ true)
unfolding validate
validate-Ascending policy e =
    let fs = policy.cumulative_fractions in
    let (_, e1) = raise_if-eq-ok (is_empty fs) no_fractions _ e in
    let (u, checked, e2) = >>=-eq-ok (check_fractions (of_ℕ 0) fs) _ e1 in
    let (full, _) = raise_if-eq-ok (not (last_is_full fs)) last_not_full _ e2 in
    (check_fractions-Ascending fs (of_ℕ 0) checked, ground arith)

-- A part of a target is at most the target.
pub part-le : (full : ℕ) (f : Decimal) → of_ℕ 0 ≼ f → f ≼ of_ℕ 1 → floor (of_ℕ full ⊗ f) ≤ full
part-le full f p q =
    let whole = of_ℕ full in
    let nonneg = of_ℕ_mono 0 full (omega arith) in
    of_ℕ_reflect (floor (whole ⊗ f)) full (
      ≼_trans (of_ℕ (floor (whole ⊗ f))) (whole ⊗ f) whole
        (of_ℕ-floor-≼ (whole ⊗ f) (⊗-nonneg whole f nonneg p))
        (≼_trans (whole ⊗ f) (whole ⊗ of_ℕ 1) whole (⊗_mono_right whole f (of_ℕ 1) q nonneg)
          (⊗-one_≼ whole)))

-- A scaled target that is returned is at most the full target.
pub scaled_target_quantity-le :
    (full : ℕ) (fraction : Decimal) (n : ℕ) → scaled_target_quantity full fraction ≡ ok n → n ≤ full
unfolding scaled_target_quantity
scaled_target_quantity-le full fraction n e =
    let (range, e1) =
      raise_if-eq-ok (not (leq (of_ℕ 0) fraction && leq fraction (of_ℕ 1))) bad_fraction _ e in
    elim (Bool-cases (same fraction (of_ℕ 1))) [
      | inl whole ↦ subst (λ (m : ℕ). m ≤ full) (ok-injective (rw whole at e1)) (omega arith)
      | inr part ↦
          subst (λ (m : ℕ). m ≤ full) (ok-injective (rw part at e1))
            (part-le full fraction (ground arith) (ground arith))
    ]

-- With a positive equity and a weight and a fee that are not negative, the shares of a target
-- weight cost at most that share of the equity, fee included.
pub target_quantity-within :
    (equity weight price fee : Decimal)
    → of_ℕ 0 ≼ fee
    → of_ℕ 0 ≺ equity
    → of_ℕ 0 ≼ weight
    → of_ℕ (target_quantity equity weight price fee) ⊗ (price ⊗ (of_ℕ 1 ⊕ fee)) ≼ equity ⊗ weight
unfolding target_quantity
target_quantity-within equity weight price fee f p q =
    let amount = equity ⊗ weight in
    let funded = ⊗-nonneg equity weight (≼_of_≺ (of_ℕ 0) equity p) q in
    let per_share = price ⊗ (of_ℕ 1 ⊕ fee) in
    elim (Bool-cases (leq equity (of_ℕ 0) || (leq weight (of_ℕ 0) || leq price (of_ℕ 0)))) [
      | inl idle ↦ rw idle (nothing-≼ per_share amount funded)
      | inr active ↦ rw active (
          floor-divide-⊗ amount per_share funded (
            ⊗_pos price (of_ℕ 1 ⊕ fee) (≺_of_not_leq price (of_ℕ 0) (ground arith))
              (one_more-pos fee f)))
    ]
