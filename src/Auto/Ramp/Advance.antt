-- ===== src/Auto/Ramp/Advance.antt =====
-- The ramp's own step.
use jh_holdings.Prelude.{
  ℕ, ◌+◌, ◌≡◌, refl, inl, inr, Option, none, some, Bool, true, false, ◌==◌, ltb, arith,
  if◌then◌else◌, Result, ok, raise, Bool-cases,
}
use jh_holdings.Decimal.{of_ℕ, ◌≼◌}
use jh_holdings.Decimal.Laws.{≼_trans}
use jh_holdings.Auto.State.{AutoState, Readings, capital_ramp_stage, AutoError}
use jh_holdings.Auto.Flow.{apply_external_flow}
use jh_holdings.Auto.Launch.{ramp_principal, ramp_to}
use jh_holdings.Auto.Ramp.{
  stage_filled, ramp_is_blocked, unfilled, completed_ramp, advanced, next_stage, with_filled,
  advance_ramp_if_ready,
}
use jh_holdings.Auto.Ramp.Rounding.{ramp_principal-≼}
use jh_holdings.Auto.Ramp.Bound.{RampWithin, WithinTarget, flow-WithinTarget}
use jh_holdings.Auto.Ramp.Kept.{noted_fill-WithinTarget, completed-WithinTarget}

-- the state that a step leaves, if it returns
abbrev pub Kept : Result AutoError (AutoState × Bool) → Type 0
Kept (ok (s, moved)) = WithinTarget s
Kept (raise e) = Unit

advanced-Kept :
    (r : Result AutoError AutoState)
    → ((s : AutoState) → r ≡ ok s → WithinTarget s)
    → Kept (advanced r)
advanced-Kept (ok s) k = k s refl
advanced-Kept (raise e) k = tt

next_stage-Kept :
    (readings : Readings) (date : ℕ) (s : AutoState)
    → WithinTarget s
    → s.launch_authorized ≡ true
    → (s.ramp_stage == 0) ≡ false
    → Kept (next_stage readings date s)
unfolding next_stage
next_stage-Kept readings date s w on stage =
    by_tests (s.ramp_stage == 3) (ltb (readings.completed_sessions_since date) 3)
  where
    bounds :
        RampWithin s.ramp_stage s.ramp_base_principal s.ramp_target_principal s.target_principal
        → (of_ℕ 0 ≼ s.ramp_base_principal)
          × (s.ramp_base_principal ≼ s.ramp_target_principal)
          × (s.ramp_target_principal ≼ s.target_principal)
    bounds (inl off) = absurd (ground arith)
    bounds (inr b) = b

    opened : Result AutoError (AutoState × Bool)
    opened = advanced (
        apply_external_flow (capital_ramp_stage (s.ramp_stage + 1)) readings
          (ramp_principal s.ramp_base_principal s.ramp_target_principal (s.ramp_stage + 1))
          (ramp_to (s.ramp_stage + 1) s.ramp_base_principal s.ramp_target_principal
            (some readings.latest_completed) s))

    opened-Kept : Kept opened
    opened-Kept =
        let (p, q, u) = bounds w.ramp in
        advanced-Kept _ (λ s' h.
          flow-WithinTarget (capital_ramp_stage (s.ramp_stage + 1)) readings _ _ s' w.base_nonneg
            w.ratio_nonneg
            (≼_trans _ s.ramp_target_principal s.target_principal
              (ramp_principal-≼ s.ramp_base_principal s.ramp_target_principal (s.ramp_stage + 1) p
                q)
              u)
            (inr (p, q, u)) on h)

    by_tests :
        (t u : Bool)
        → Kept (if t then ok (completed_ramp s, true) else if u then ok (s, false) else opened)
    by_tests true u = completed-WithinTarget s w
    by_tests false true = w
    by_tests false false = opened-Kept

with_filled-Kept :
    (date : Option ℕ) (readings : Readings) (s : AutoState)
    → WithinTarget s
    → s.launch_authorized ≡ true
    → (s.ramp_stage == 0) ≡ false
    → Kept (with_filled date readings s)
with_filled-Kept none readings s w on stage =
    next_stage-Kept readings readings.latest_completed
      (record s { ramp_stage_filled = some readings.latest_completed })
      (noted_fill-WithinTarget s (some readings.latest_completed) w) on stage
with_filled-Kept (some date) readings s w on stage = next_stage-Kept readings date s w on stage

pub advance_ramp-Kept :
    (readings : Readings) (s : AutoState) → WithinTarget s → Kept (advance_ramp_if_ready readings s)
unfolding advance_ramp_if_ready ramp_is_blocked
advance_ramp-Kept readings s w = elim (Bool-cases (ramp_is_blocked readings s)) [
  | inl blocked ↦ rw blocked w
  | inr free ↦ rw free (
      by_fill (stage_filled readings s)
        (with_filled-Kept s.ramp_stage_filled readings s w (ground arith) (ground arith)))
]
  where
    by_fill :
        (t : Bool)
        → Kept (with_filled s.ramp_stage_filled readings s)
        → Kept (if t then with_filled s.ramp_stage_filled readings s else ok (unfilled s, false))
    by_fill true k = k
    by_fill false k = noted_fill-WithinTarget s none w
