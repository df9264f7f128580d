-- ===== src/Auto/Ramp/Bound.antt =====
-- The delegated principal and the target that the operator has set.
use jh_holdings.Prelude.{
  ℕ, ◌≡◌, ◌⊎◌, refl, sym, subst, ◌∙◌, inl, inr, true, ok, Bool-cases, ok-injective, >>=-eq-ok,
  raise_if-eq-ok,
}
use jh_holdings.Decimal.{Decimal, of_ℕ, minus_ratio, ◌⊖◌, ◌≼◌, ◌≈◌, less, same}
use jh_holdings.Decimal.Laws.{≼_trans}
use jh_holdings.Decimal.Mean.{≈-refl, ≈_of_same, ≈_of_⊖-zero, ≈_sym}
use jh_holdings.Auto.State.{
  AutoState, Readings, EventType, negative_units, invalidate_target_generation,
}
use jh_holdings.Auto.Flow.{cents_of, Valuation, valuation, units_after, flowed, apply_external_flow}
use jh_holdings.Auto.Ramp.Rounding.{Nonneg, cents_of-nonneg}

-- What a flow leaves alone.
pub record SameSettings (s s' : AutoState) : Type 0 where
  pub base_same : s'.base_capital ≡ s.base_capital
  pub ratio_same : s'.ratio ≡ s.ratio
  pub target_same : s'.target_principal ≡ s.target_principal
  pub launch_same : s'.launch_authorized ≡ s.launch_authorized
  pub stage_same : s'.ramp_stage ≡ s.ramp_stage
  pub ramp_base_same : s'.ramp_base_principal ≡ s.ramp_base_principal
  pub ramp_target_same : s'.ramp_target_principal ≡ s.ramp_target_principal

flowed-SameSettings :
    (kind : EventType) (new_effective : Decimal) (v : Valuation) (s : AutoState)
    → SameSettings s (flowed kind new_effective v s)
      × ((flowed kind new_effective v s).effective_principal ≡ new_effective)
unfolding flowed invalidate_target_generation
flowed-SameSettings kind new_effective v s = (
  record {
    base_same = refl;
    ratio_same = refl;
    target_same = refl;
    launch_same = refl;
    stage_same = refl;
    ramp_base_same = refl;
    ramp_target_same = refl;
  },
  refl,
)

-- A flow that returns opens the amount asked for, in cents.
pub apply_external_flow-eq-ok :
    (kind : EventType) (readings : Readings) (amount : Decimal) (s s' : AutoState)
    → apply_external_flow kind readings amount s ≡ ok s'
    → SameSettings s s' × (s'.effective_principal ≈ cents_of amount)
unfolding apply_external_flow
apply_external_flow-eq-ok kind readings amount s s' h =
    elim (Bool-cases (same (cents_of amount ⊖ s.effective_principal) (of_ℕ 0))) [
      | inl no_change ↦
          let e : s ≡ s' = ok-injective (rw no_change at h) in
          subst (λ x. SameSettings s x × (x.effective_principal ≈ cents_of amount)) e
            (
              record {
                base_same = refl;
                ratio_same = refl;
                target_same = refl;
                launch_same = refl;
                stage_same = refl;
                ramp_base_same = refl;
                ramp_target_same = refl;
              },
              ≈_sym _ _
                  (≈_of_⊖-zero (cents_of amount) s.effective_principal (≈_of_same _ _ no_change)),
            )
      | inr change ↦
          let (v, valued, rest) = >>=-eq-ok (valuation readings s) _ (rw change at h) in
          let (enough, done) =
            raise_if-eq-ok
              (less (units_after s v.unit_value (cents_of amount ⊖ s.effective_principal))
                (minus_ratio 1 1000000))
              negative_units _ rest in
          let (settings, effective) = flowed-SameSettings kind (cents_of amount) v s in
          subst (λ x. SameSettings s x × (x.effective_principal ≈ cents_of amount))
            (ok-injective done)
            (settings, subst (λ x. x ≈ cents_of amount) (sym effective) (≈-refl (cents_of amount)))
    ]

-- No ramp is on, or it goes from an amount that is not negative to one within the target.
abbrev pub RampWithin : ℕ → Decimal → Decimal → Decimal → Type 0
RampWithin stage base ramp_target target =
    (stage ≡ 0) ⊎ ((of_ℕ 0 ≼ base) × (base ≼ ramp_target) × (ramp_target ≼ target))

pub record WithinTarget (s : AutoState) : Type 0 where
  pub base_nonneg : Nonneg s.base_capital
  pub ratio_nonneg : Nonneg s.ratio
  pub opened_nonneg : of_ℕ 0 ≼ s.effective_principal
  pub opened_le : s.effective_principal ≼ s.target_principal
  pub ramp :
      RampWithin s.ramp_stage s.ramp_base_principal s.ramp_target_principal s.target_principal
  pub before_launch :
      (s.launch_authorized ≡ true) ⊎ ((s.effective_principal ≼ of_ℕ 0) × (s.ramp_stage ≡ 0))

-- A flow within the target of a launched state.
pub flow-WithinTarget :
    (kind : EventType) (readings : Readings) (amount : Decimal) (s s' : AutoState)
    → Nonneg s.base_capital
    → Nonneg s.ratio
    → cents_of amount ≼ s.target_principal
    → RampWithin s.ramp_stage s.ramp_base_principal s.ramp_target_principal s.target_principal
    → s.launch_authorized ≡ true
    → apply_external_flow kind readings amount s ≡ ok s'
    → WithinTarget s'
flow-WithinTarget kind readings amount s s' b r le ramp on h =
    let (k, e) = apply_external_flow-eq-ok kind readings amount s s' h in
    record {
      base_nonneg = subst Nonneg (sym k.base_same) b;
      ratio_nonneg = subst Nonneg (sym k.ratio_same) r;
      opened_nonneg =
          ≼_trans (of_ℕ 0) (cents_of amount) s'.effective_principal (cents_of-nonneg amount) e.1;
      opened_le =
          ≼_trans s'.effective_principal (cents_of amount) s'.target_principal e.0
            (subst (λ t. cents_of amount ≼ t) (sym k.target_same) le);
      ramp =
          let at_stage : RampWithin s'.ramp_stage s.ramp_base_principal s.ramp_target_principal
              s.target_principal =
            subst
              (λ n. RampWithin n s.ramp_base_principal s.ramp_target_principal s.target_principal)
              (sym k.stage_same) ramp in
          let at_base : RampWithin s'.ramp_stage s'.ramp_base_principal s.ramp_target_principal
              s.target_principal =
            subst (λ x. RampWithin s'.ramp_stage x s.ramp_target_principal s.target_principal)
              (sym k.ramp_base_same) at_stage in
          let at_end : RampWithin s'.ramp_stage s'.ramp_base_principal s'.ramp_target_principal
              s.target_principal =
            subst (λ x. RampWithin s'.ramp_stage s'.ramp_base_principal x s.target_principal)
              (sym k.ramp_target_same) at_base in
          subst (λ x. RampWithin s'.ramp_stage s'.ramp_base_principal s'.ramp_target_principal x)
            (sym k.target_same) at_end;
      before_launch = inl (k.launch_same ∙ on);
    }
