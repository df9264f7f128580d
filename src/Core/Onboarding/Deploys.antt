-- ===== src/Core/Onboarding/Deploys.antt =====
-- The target count of each stage under a validated policy.
use jh_holdings.Prelude.{
  ℕ, zero, suc, ◌≤◌, ◌≡◌, refl, inl, inr, some, List, [], ◌∷◌, true, false, arith, length,
  get_elem?, ok, Bool-cases, some-injective, subst, sym, ◌∙◌,
}
use native.Mathlib.Nat.{le-div_iff_mul-le}
use jh_holdings.Decimal.{Decimal, of_ℕ, ◌⊗◌, same, floor, ◌≼◌}
use jh_holdings.Decimal.Laws.{≼_refl, ≼_trans, ≼_of_≺, ≼_parts, ⊗_mono_right, of_ℕ_mono, ⊗-nonneg}
use jh_holdings.Decimal.Rounding.{of_ℕ-floor-≼}
use jh_holdings.Core.Onboarding.{
  InitialOnboardingPolicy, last_is_full, validate, total_stages, fraction_for_stage,
  scaled_target_quantity, active, onboarding_stage, effective_fraction, effective_target_quantity,
}
use jh_holdings.Core.Onboarding.Laws.{Ascending, validate-Ascending, part-le}

≼-floor : (n : ℕ) (a : Decimal) → of_ℕ n ≼ a → n ≤ floor a
unfolding floor
≼-floor n a h = (le-div_iff_mul-le (omega arith)).1 (omega (arith, ≼_parts (of_ℕ n) a h))

floor_mono : (a b : Decimal) → of_ℕ 0 ≼ a → a ≼ b → floor a ≤ floor b
floor_mono a b p q = ≼-floor (floor a) b (≼_trans (of_ℕ (floor a)) a b (of_ℕ-floor-≼ a p) q)

-- the fractions of two stages, with `previous` as that of the stage before the first
abbrev Rises : List Decimal → (i j : ℕ) → Type 0
Rises fs i j =
    (f g : Decimal) × (get_elem? fs i ≡ some f) × (get_elem? fs j ≡ some g) × (f ≼ g) × (g ≼ of_ℕ 1)

first-Rises :
    (fs : List Decimal) (previous : Decimal) (j : ℕ)
    → Ascending previous fs
    → previous ≼ of_ℕ 1
    → j ≤ length fs
    → Rises (previous ∷ fs) 0 j
first-Rises fs previous zero up top h = (previous, previous, refl, refl, ≼_refl previous, top)
first-Rises [] previous (suc j) up top h = absurd (omega arith)
first-Rises (f ∷ rest) previous (suc j) (positive, below, more, up) top h =
    let (x, y, ex, ey, le, one) = first-Rises rest f j up below (omega arith) in
    (
      previous,
      y,
      refl,
      ey,
      ≼_trans previous f y (≼_of_≺ previous f more)
          (subst (λ d. d ≼ y) (sym (some-injective _ _ ex)) le),
      one,
    )

Ascending-Rises :
    (fs : List Decimal) (previous : Decimal) (i j : ℕ)
    → Ascending previous fs
    → previous ≼ of_ℕ 1
    → i ≤ j
    → j ≤ length fs
    → Rises (previous ∷ fs) i j
Ascending-Rises fs previous zero j up top le h = first-Rises fs previous j up top h
Ascending-Rises fs previous (suc i) zero up top le h = absurd (omega arith)
Ascending-Rises [] previous (suc i) (suc j) up top le h = absurd (omega arith)
Ascending-Rises (f ∷ rest) previous (suc i) (suc j) (positive, below, more, up) top le h =
    Ascending-Rises rest f i j up below (omega arith) (omega arith)

last-full :
    (fs : List Decimal) (previous : Decimal)
    → last_is_full fs ≡ true
    → (f : Decimal) × (get_elem? (previous ∷ fs) (length fs) ≡ some f) × (same f (of_ℕ 1) ≡ true)
last-full [] previous h = cc
last-full (f ∷ []) previous h = (f, refl, h)
last-full (f ∷ g ∷ rest) previous h = last-full (g ∷ rest) f h

-- a scaled target of a fraction from 0 to 1
module _ (full : ℕ) (f : Decimal) (p : of_ℕ 0 ≼ f) (q : f ≼ of_ℕ 1) where
  scaled_whole : same f (of_ℕ 1) ≡ true → scaled_target_quantity full f ≡ ok full
  unfolding scaled_target_quantity
  scaled_whole h = ground arith

  scaled_part : same f (of_ℕ 1) ≡ false → scaled_target_quantity full f ≡ ok (floor (of_ℕ full ⊗ f))
  unfolding scaled_target_quantity
  scaled_part h = ground arith

scaled_mono :
    (full : ℕ) (f g : Decimal)
    → of_ℕ 0 ≼ f
    → f ≼ g
    → g ≼ of_ℕ 1
    → (m n : ℕ) × (scaled_target_quantity full f ≡ ok m)
      × (scaled_target_quantity full g ≡ ok n)
      × (m ≤ n)
      × (n ≤ full)
scaled_mono full f g p q r =
    let f_one = ≼_trans f g (of_ℕ 1) q r in
    let g_nonneg = ≼_trans (of_ℕ 0) f g p q in
    let nonneg = of_ℕ_mono 0 full (omega arith) in
    elim (Bool-cases (same g (of_ℕ 1))) [
      | inl whole ↦ elim (Bool-cases (same f (of_ℕ 1))) [
        | inl all ↦ (
          full,
          full,
          scaled_whole full f p f_one all,
          scaled_whole full g g_nonneg r whole,
          omega arith,
          omega arith,
        )
        | inr some_of ↦ (
          floor (of_ℕ full ⊗ f),
          full,
          scaled_part full f p f_one some_of,
          scaled_whole full g g_nonneg r whole,
          part-le full f p f_one,
          omega arith,
        )
      ]
      | inr part ↦ (
        floor (of_ℕ full ⊗ f),
        floor (of_ℕ full ⊗ g),
        scaled_part full f p f_one (not_whole part),
        scaled_part full g g_nonneg r part,
        floor_mono (of_ℕ full ⊗ f) (of_ℕ full ⊗ g) (⊗-nonneg (of_ℕ full) f nonneg p)
            (⊗_mono_right (of_ℕ full) f g q nonneg),
        part-le full g g_nonneg r,
      )
    ]
  where
    not_whole : same g (of_ℕ 1) ≡ false → same f (of_ℕ 1) ≡ false
    not_whole h = unfold same in ground (arith, ≼_trans (of_ℕ 1) f g)

stage-nonneg :
    (fs : List Decimal) (i : ℕ) (f : Decimal)
    → Ascending (of_ℕ 0) fs
    → i ≤ length fs
    → get_elem? (of_ℕ 0 ∷ fs) i ≡ some f
    → of_ℕ 0 ≼ f
stage-nonneg fs i f up h e =
    let (a, b, ea, eb, a_b, _) = first-Rises fs (of_ℕ 0) i up (of_ℕ_mono 0 1 (omega arith)) h in
    let zero_b = subst (λ d. d ≼ b) (sym (some-injective _ _ ea)) a_b in
    subst (λ d. of_ℕ 0 ≼ d) (some-injective _ _ (sym eb ∙ e)) zero_b

scaled_last :
    (full : ℕ) (f : Decimal) → same f (of_ℕ 1) ≡ true → scaled_target_quantity full f ≡ ok full
scaled_last full f h =
    scaled_whole full f (≼_trans (of_ℕ 0) (of_ℕ 1) f (of_ℕ_mono 0 1 (omega arith)) (parts h).1)
      (parts h).0 h
  where
    parts : same f (of_ℕ 1) ≡ true → (f ≼ of_ℕ 1) × (of_ℕ 1 ≼ f)
    parts h = unfold same in ground arith

module _ (policy : InitialOnboardingPolicy) where
  fraction_at :
      (stage : ℕ) (f : Decimal)
      → stage ≤ total_stages policy
      → get_elem? (of_ℕ 0 ∷ policy.cumulative_fractions) stage ≡ some f
      → effective_fraction policy active stage ≡ ok f
  unfolding effective_fraction onboarding_stage fraction_for_stage
  fraction_at zero f h e = ground arith
  fraction_at (suc i) f h e = ground arith

  target_at :
      (stage full current n : ℕ) (f : Decimal)
      → stage ≤ total_stages policy
      → get_elem? (of_ℕ 0 ∷ policy.cumulative_fractions) stage ≡ some f
      → scaled_target_quantity full f ≡ ok n
      → effective_target_quantity policy active stage full current ≡ ok n
  unfolding effective_target_quantity
  target_at stage full current n f h e k = rw (fraction_at stage f h e) k

  -- Under a policy that `validate` accepts, while the deployment is active, each stage up to the
  -- last has a target; the target of a later stage is not lower, none exceeds the full target,
  -- and that of the last stage is the full target.
  pub effective_target_quantity_rises :
      validate policy ≡ ok tt
      → (full current i j : ℕ) → i ≤ j
      → j ≤ total_stages policy
      → (m n : ℕ) × (effective_target_quantity policy active i full current ≡ ok m)
        × (effective_target_quantity policy active j full current ≡ ok n)
        × (m ≤ n)
        × (n ≤ full)
        × (effective_target_quantity policy active (total_stages policy) full current ≡ ok full)
  unfolding total_stages
  effective_target_quantity_rises valid full current i j le h =
      let fs = policy.cumulative_fractions in
      let (up, is_full) = validate-Ascending policy valid in
      let (f, g, ef, eg, f_g, g_one) =
        Ascending-Rises fs (of_ℕ 0) i j up (of_ℕ_mono 0 1 (omega arith)) le h in
      let (m, n, em, en, m_n, n_full) =
        scaled_mono full f g (stage-nonneg fs i f up (omega arith) ef) f_g g_one in
      let (last, el, is_one) = last-full fs (of_ℕ 0) is_full in
      (
        m,
        n,
        target_at i full current m f (omega arith) ef em,
        target_at j full current n g h eg en,
        m_n,
        n_full,
        target_at (length fs) full current full last (omega arith) el
            (scaled_last full last is_one),
      )
