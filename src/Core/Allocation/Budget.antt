-- ===== src/Core/Allocation/Budget.antt =====
-- The HWM75 risk budget.
use jh_holdings.Decimal.{Decimal, of_ℕ, ◌⊕◌, ◌⊖◌, ◌⊗◌, ◌≼◌, min, max}
use jh_holdings.Decimal.Laws.{
  ≼_refl, ≼_trans, ⊕_mono, ⊗_mono_right, max-≽_left, max-≽_right, max-≼, ≼-min, min-≼_left,
  min-≼_right, ⊖_mono,
}
use jh_holdings.Core.Allocation.Policy.{V322Policy}
use jh_holdings.Core.Allocation.Defs.{hwm_risk_budget}

-- With an equity that is not negative, the risk budget is not negative and at most the equity.
hwm_risk_budget-within :
    (high current : Decimal) (policy : V322Policy)
    → of_ℕ 0 ≼ current
    → (of_ℕ 0 ≼ hwm_risk_budget high current policy)
      × (hwm_risk_budget high current policy ≼ current)
unfolding hwm_risk_budget
hwm_risk_budget-within high current policy h =
    let zero = of_ℕ 0 in
    let budget =
      policy.initial_capital
      ⊕ policy.hwm_reinvestment_fraction ⊗ max zero (high ⊖ policy.initial_capital) in
    (
      max-≽_left zero (min budget current),
      max-≼ zero (min budget current) current h (min-≼_right budget current),
    )

max_mono : (z a b : Decimal) → a ≼ b → max z a ≼ max z b
max_mono z a b h = max-≼ z a (max z b) (max-≽_left z b) (≼_trans a b (max z b) h (max-≽_right z b))

min_mono : (a b c d : Decimal) → a ≼ b → c ≼ d → min a c ≼ min b d
min_mono a b c d p q =
    ≼-min b d (min a c) (≼_trans (min a c) a b (min-≼_left a c) p)
      (≼_trans (min a c) c d (min-≼_right a c) q)

-- With a reinvestment fraction that is not negative, a higher high-water mark and a higher
-- equity never lower the risk budget.
pub hwm_risk_budget-mono :
    (h h' c c' : Decimal) (policy : V322Policy)
    → of_ℕ 0 ≼ policy.hwm_reinvestment_fraction
    → h ≼ h'
    → c ≼ c'
    → hwm_risk_budget h c policy ≼ hwm_risk_budget h' c' policy
unfolding hwm_risk_budget
hwm_risk_budget-mono h h' c c' policy f p q =
    let i = policy.initial_capital in
    let zero = of_ℕ 0 in
    let gain = max zero (h ⊖ i) in
    let gain' = max zero (h' ⊖ i) in
    let r = policy.hwm_reinvestment_fraction in
    max_mono zero (min (i ⊕ r ⊗ gain) c) (min (i ⊕ r ⊗ gain') c') (
      min_mono (i ⊕ r ⊗ gain) (i ⊕ r ⊗ gain') c c'
        (⊕_mono i i (r ⊗ gain) (r ⊗ gain') (≼_refl i)
          (⊗_mono_right r gain gain' (max_mono zero (h ⊖ i) (h' ⊖ i) (⊖_mono h h' i p)) f))
        q)
