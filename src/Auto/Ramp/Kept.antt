-- ===== src/Auto/Ramp/Kept.antt =====
-- Each change of the service, and the delegated principal.
use jh_holdings.Prelude.{
  ℕ, ◌≡◌, ◌⊎◌, refl, sym, subst, ◌∙◌, inl, inr, Option, none, some, Bool, true, false, not, ◌&&◌,
  ◌||◌, ◌==◌, if◌then◌else◌, ok, raise, Bool-cases, ok-injective, >>=-eq-ok, raise_if-eq-ok,
}
use jh_holdings.Decimal.{Decimal, of_ℕ, ◌⊗◌, ◌≼◌, leq, less, same, quantize_down}
use jh_holdings.Decimal.Laws.{≼_trans, ≼_refl, ≼_of_not_less, ⊗_mono_right, ⊗-one_≼, ⊗-nonneg}
use jh_holdings.Decimal.Mean.{≈_of_same}
use jh_holdings.Auto.State.{
  AutoState, Readings, capital_reduction, capital_increase_stage_1, launch_stage_1,
  accounting_incomplete, orders_open, ramp_not_done,
}
use jh_holdings.Auto.Config.{target_principal}
use jh_holdings.Auto.Flow.{apply_external_flow}
use jh_holdings.Auto.Launch.{
  ramp_fraction, ramp_principal, ramp_to, retarget_live, configured_as, noted, or_before,
  set_operator_config, preflight_launch, launched, relaunched, authorize_launch,
}
use jh_holdings.Auto.Ramp.{completed_ramp}
use jh_holdings.Auto.Ramp.Rounding.{
  Nonneg, cents_of-≼, target_principal-nonneg, ramp_fraction-le, ramp_principal-≼,
}
use jh_holdings.Auto.Ramp.Bound.{RampWithin, WithinTarget, flow-WithinTarget}

retarget-WithinTarget :
    (readings : Readings) (base rate : Option Decimal) (s s' : AutoState)
    → WithinTarget s
    → Nonneg base
    → Nonneg rate
    → s.launch_authorized ≡ true
    → retarget_live readings s (target_principal base rate) (configured_as base rate s) ≡ ok s'
    → WithinTarget s'
unfolding retarget_live
retarget-WithinTarget readings base rate s s' w b r on h =
    elim (Bool-cases (same target s.target_principal)) [
      | inl equal ↦
          let e = ≈_of_same target s.target_principal equal in
          subst WithinTarget (ok-injective (rw equal at h)) (record {
            base_nonneg = b;
            ratio_nonneg = r;
            opened_nonneg = w.opened_nonneg;
            opened_le = ≼_trans s.effective_principal s.target_principal target w.opened_le e.1;
            ramp = widened e.1 w.ramp;
            before_launch = inl on;
          })
      | inr other ↦ elim (Bool-cases (less target s.effective_principal)) [
        | inl lower ↦
            flow-WithinTarget capital_reduction readings target
              (ramp_to 0 target target s.ramp_stage_started (configured_as base rate s)) s' b r
              (target_principal-nonneg base rate b r).1 (inl refl) on (rw (other, lower) at h)
        | inr kept ↦
            let le = ≼_of_not_less s.effective_principal target kept in
            elim (Bool-cases (less target s.target_principal)) [
              | inl stopped ↦
                  subst WithinTarget (ok-injective (rw (other, kept, stopped) at h)) (record {
                    base_nonneg = b;
                    ratio_nonneg = r;
                    opened_nonneg = w.opened_nonneg;
                    opened_le = le;
                    ramp = inl refl;
                    before_launch = inl on;
                  })
              | inr more ↦
                  flow-WithinTarget capital_increase_stage_1 readings
                    (ramp_principal s.effective_principal target 1)
                    (ramp_to 1 s.effective_principal target (some readings.latest_completed)
                      (configured_as base rate s))
                    s' b r (ramp_principal-≼ s.effective_principal target 1 w.opened_nonneg le)
                    (inr (w.opened_nonneg, le, ≼_refl target)) on (rw (other, kept, more) at h)
            ]
      ]
    ]
  where
    target : Decimal
    target = target_principal base rate

    widened :
        s.target_principal ≼ target_principal base rate
        → RampWithin s.ramp_stage s.ramp_base_principal s.ramp_target_principal s.target_principal
        → RampWithin s.ramp_stage s.ramp_base_principal s.ramp_target_principal
            (target_principal base rate)
    widened le (inl off) = inl off
    widened le (inr (p, q, u)) =
        inr (
          p,
          q,
          ≼_trans s.ramp_target_principal s.target_principal (target_principal base rate) u le,
        )

-- Settings that are changed before the launch.
noted-WithinTarget :
    (base rate : Option Decimal) (s : AutoState)
    → WithinTarget s
    → Nonneg base
    → Nonneg rate
    → s.launch_authorized ≡ false
    → WithinTarget (noted base rate s (configured_as base rate s))
noted-WithinTarget base rate s w b r off = record {
  base_nonneg = b;
  ratio_nonneg = r;
  opened_nonneg = w.opened_nonneg;
  opened_le =
      ≼_trans s.effective_principal (of_ℕ 0) (target_principal base rate) (closed w.before_launch).0
        (target_principal-nonneg base rate b r).0;
  ramp = inl (closed w.before_launch).1;
  before_launch = inr (closed w.before_launch);
}
  where
    closed :
        (s.launch_authorized ≡ true) ⊎ ((s.effective_principal ≼ of_ℕ 0) × (s.ramp_stage ≡ 0))
        → (s.effective_principal ≼ of_ℕ 0) × (s.ramp_stage ≡ 0)
    closed (inl on) = cc (sym on ∙ off)
    closed (inr c) = c

pub set_operator_config-WithinTarget :
    (readings : Readings) (base rate : Option Decimal) (s s' : AutoState)
    → WithinTarget s
    → Nonneg base
    → Nonneg rate
    → set_operator_config readings base rate s ≡ ok s'
    → WithinTarget s'
unfolding set_operator_config
set_operator_config-WithinTarget readings base rate s s' w b r h =
    let (t, h1) = raise_if-eq-ok (s.launch_authorized && readings.open_orders) orders_open _ h in
    let (u, h2) =
      raise_if-eq-ok
        (s.launch_authorized
          && (less s.target_principal
                (target_principal (or_before base s.base_capital) (or_before rate s.ratio))
              && not (s.ramp_stage == 0)))
        ramp_not_done _ h1 in
    by_launch s.launch_authorized refl h2
  where
    given : (x old : Option Decimal) → Nonneg x → Nonneg old → Nonneg (or_before x old)
    given none old p q = q
    given (some v) old p q = p

    by_launch :
        (on : Bool)
        → s.launch_authorized ≡ on
        → (elim on [
          | true ↦
              retarget_live readings s
                (target_principal (or_before base s.base_capital) (or_before rate s.ratio))
                (configured_as (or_before base s.base_capital) (or_before rate s.ratio) s)
          | false ↦ ok (
              noted
                (or_before base s.base_capital)
                (or_before rate s.ratio)
                s
                (configured_as (or_before base s.base_capital) (or_before rate s.ratio) s))
        ])
          ≡ ok s'
        → WithinTarget s'
    by_launch true on k =
        retarget-WithinTarget readings _ _ s s' w (given base s.base_capital b w.base_nonneg)
          (given rate s.ratio r w.ratio_nonneg) on k
    by_launch false off k = subst WithinTarget (ok-injective k) (
        noted-WithinTarget _ _ s w (given base s.base_capital b w.base_nonneg)
          (given rate s.ratio r w.ratio_nonneg) off)

pub authorize_launch-WithinTarget :
    (readings : Readings) (s s' : AutoState)
    → WithinTarget s
    → authorize_launch readings s ≡ ok s'
    → WithinTarget s'
unfolding authorize_launch
authorize_launch-WithinTarget readings s s' w h =
    let (u, checked, rest) = >>=-eq-ok (preflight_launch readings s) _ h in
    by_launch s.launch_authorized rest
  where
    target_nonneg : of_ℕ 0 ≼ s.target_principal
    target_nonneg =
        ≼_trans (of_ℕ 0) s.effective_principal s.target_principal w.opened_nonneg w.opened_le

    half_le : s.target_principal ⊗ ramp_fraction 1 ≼ s.target_principal
    half_le =
        ≼_trans (s.target_principal ⊗ ramp_fraction 1) (s.target_principal ⊗ of_ℕ 1)
          s.target_principal
          (⊗_mono_right s.target_principal (ramp_fraction 1) (of_ℕ 1) (ramp_fraction-le 1).0
            target_nonneg)
          (⊗-one_≼ s.target_principal)

    by_launch :
        (on : Bool)
        → (elim on [
          | true ↦ relaunched s
          | false ↦
              apply_external_flow launch_stage_1 readings
                (quantize_down 100 (s.target_principal ⊗ ramp_fraction 1))
                (launched readings s)
        ])
          ≡ ok s'
        → WithinTarget s'
    by_launch true k =
        subst WithinTarget
          (unchanged (leq s.effective_principal (of_ℕ 0) || leq s.units (of_ℕ 0)) k) w
      where
        unchanged : (t : Bool) → (if t then raise accounting_incomplete else ok s) ≡ ok s' → s ≡ s'
        unchanged true k = cc
        unchanged false k = ok-injective k
    by_launch false k =
        flow-WithinTarget launch_stage_1 readings _ (launched readings s) s' w.base_nonneg
          w.ratio_nonneg
          (≼_trans _ (s.target_principal ⊗ ramp_fraction 1) s.target_principal
            (cents_of-≼ (s.target_principal ⊗ ramp_fraction 1)
              (⊗-nonneg s.target_principal (ramp_fraction 1) target_nonneg (ramp_fraction-le 1).1))
            half_le)
          (inr (≼_refl (of_ℕ 0), target_nonneg, ≼_refl s.target_principal)) refl k

-- Fields that the principal does not depend on.
pub noted_fill-WithinTarget :
    (s : AutoState) (date : Option ℕ)
    → WithinTarget s
    → WithinTarget (record s { ramp_stage_filled = date })
noted_fill-WithinTarget s date w = record {
  base_nonneg = w.base_nonneg;
  ratio_nonneg = w.ratio_nonneg;
  opened_nonneg = w.opened_nonneg;
  opened_le = w.opened_le;
  ramp = w.ramp;
  before_launch = w.before_launch;
}

pub completed-WithinTarget : (s : AutoState) → WithinTarget s → WithinTarget (completed_ramp s)
completed-WithinTarget s w = record {
  base_nonneg = w.base_nonneg;
  ratio_nonneg = w.ratio_nonneg;
  opened_nonneg = w.opened_nonneg;
  opened_le = w.opened_le;
  ramp = inl refl;
  before_launch = stage_off w.before_launch;
}
  where
    stage_off :
        (s.launch_authorized ≡ true) ⊎ ((s.effective_principal ≼ of_ℕ 0) × (s.ramp_stage ≡ 0))
        → (s.launch_authorized ≡ true) ⊎ ((s.effective_principal ≼ of_ℕ 0) × ◌≡◌ {A = ℕ} 0 0)
    stage_off (inl on) = inl on
    stage_off (inr (p, q)) = inr (p, refl)
