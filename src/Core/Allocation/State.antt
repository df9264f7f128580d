-- ===== src/Core/Allocation/State.antt =====
-- The month state: its levels, and its steps within a month.
use jh_holdings.Prelude.{
  ℕ, ◌≡◌, refl, inl, inr, Option, some, Bool, true, false, ◌&&◌, ◌==◌, if◌then◌else◌, arith,
  Bool-cases, Option-cases,
}
use jh_holdings.Decimal.{Decimal, of_ℕ, leq, less, ◌≼◌}
use jh_holdings.Decimal.Laws.{≼_refl, ≼_of_≺, ≼_of_not_less}
use jh_holdings.Core.Allocation.Policy.{V322Policy}
use jh_holdings.Core.Allocation.Defs.{
  QqqRow, ReadyRow, row_ready, ready_leverage, base_leverage, semiconductor_wins, brakes,
  AllocationState, month_start, same_month, advance_state, trend_vote,
}

-- The four levels of the policy.
pub data IsLevel (policy : V322Policy) (l : Decimal) : Type 0 where
  defensive : l ≡ policy.leverage_defensive → IsLevel policy l
  normal : l ≡ policy.leverage_normal → IsLevel policy l
  trend : l ≡ policy.leverage_trend → IsLevel policy l
  strong : l ≡ policy.leverage_strong → IsLevel policy l

module _ (policy : V322Policy) where
  ready_leverage-IsLevel : (row : ReadyRow) → IsLevel policy (ready_leverage row policy)
  unfolding ready_leverage
  ready_leverage-IsLevel row = elim (Bool-cases (leq policy.volatility_brake row.volatility)) [
    | inl e ↦ rw e (defensive refl)
    | inr e ↦ rw e (
        calm (leq row.close row.sma_long)
          (less row.sma_long row.sma_short
            && (less (of_ℕ 0) row.ret_medium && less (of_ℕ 0) row.ret_long))
          (trend_vote row policy))
  ]
    where
      calm :
          (a b c : Bool)
          → IsLevel policy (
              if a
              then policy.leverage_normal
              else if b
              then policy.leverage_strong
              else if c
              then policy.leverage_trend
              else policy.leverage_normal)
      calm true b c = normal refl
      calm false true c = strong refl
      calm false false true = trend refl
      calm false false false = normal refl

  base_leverage-IsLevel : (row : QqqRow) → IsLevel policy (base_leverage row policy)
  unfolding base_leverage
  base_leverage-IsLevel row = elim (Option-cases (row_ready row)) [
    | inl e ↦ rw (e, base_leverage) (normal refl)
    | inr (r, e) ↦ rw (e, base_leverage) (ready_leverage-IsLevel r)
  ]

  keep_or_brake :
      (b : Bool) (l : Decimal)
      → IsLevel policy l
      → IsLevel policy (if b then policy.leverage_defensive else l)
  keep_or_brake true l h = defensive refl
  keep_or_brake false l h = h

  pub month_start-IsLevel :
      (m : ℕ) (row : QqqRow) (rs : Option Decimal)
      → IsLevel policy (month_start m row rs policy).leverage
  unfolding month_start
  month_start-IsLevel m row rs = base_leverage-IsLevel row

  -- After a state whose leverage is one of the four levels of the policy, whatever the month and
  -- the row, the leverage is one of the four levels.
  pub advance_state-IsLevel :
      (previous : AllocationState) (m : ℕ) (row : QqqRow) (rs : Option Decimal)
      → IsLevel policy previous.leverage
      → IsLevel policy (advance_state (some previous) m row rs policy).leverage
  unfolding advance_state same_month
  advance_state-IsLevel previous m row rs h = elim (Bool-cases (previous.month == m)) [
    | inl e ↦ rw e (keep_or_brake _ previous.leverage h)
    | inr e ↦ rw e (month_start-IsLevel m row rs)
  ]

  -- At a later session of the month the month stays, the leverage does not rise, a volatility at
  -- the brake brings it to at most the defensive level, and the semiconductor sleeve is on only
  -- if it was on and still wins.
  pub advance_state-one_way :
      (previous : AllocationState) (row : QqqRow) (rs : Option Decimal)
      → let next = advance_state (some previous) previous.month row rs policy in
        (next.month ≡ previous.month)
        × (next.leverage ≼ previous.leverage)
        × (brakes row.volatility policy ≡ true → next.leverage ≼ policy.leverage_defensive)
        × (next.semiconductor_active ≡ true
            → (previous.semiconductor_active ≡ true) × (semiconductor_wins row rs ≡ true))
  unfolding advance_state same_month less
  advance_state-one_way previous row rs =
      let l = previous.leverage in
      let d = policy.leverage_defensive in
      ground (arith, ≼_refl l, ≼_refl d, ≼_of_not_less d l, ≼_of_≺ d l)
