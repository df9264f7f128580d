-- ===== src/Orders/Equity/Laws.antt =====
-- What the recording of an equity leaves in the system.
use jh_holdings.Prelude.{String, ◌≡◌, refl, ok, >>=-eq-ok, raise_if-eq-ok, ok-injective, subst}
use jh_holdings.Decimal.{Decimal, of_ℕ, less, max, ◌≼◌}
use jh_holdings.Decimal.Laws.{≼_trans, max-≽_left, max-≽_right}
use jh_holdings.Core.Allocation.{V322Policy, hwm_risk_budget}
use jh_holdings.Orders.System.{System, Number, finite}
use jh_holdings.Orders.Books.{negative_equity, Account, effective_initial_capital, system_decimal}
use jh_holdings.Orders.Equity.{put_text, Equity, next_equity, put_equity, record_v322_equity}

next_equity-bounds :
    (fraction initial previous marked : Decimal)
    → let next = next_equity fraction initial previous marked in
      (previous ≼ next.high_water) × (marked ≼ next.high_water) × (initial ≼ next.high_water)
unfolding next_equity
next_equity-bounds fraction initial previous marked =
    let m = max previous marked in
    (
      ≼_trans previous m (max m initial) (max-≽_left previous marked) (max-≽_left m initial),
      ≼_trans marked m (max m initial) (max-≽_right previous marked) (max-≽_left m initial),
      max-≽_right m initial,
    )

next_equity-budget :
    (policy : V322Policy) (initial previous marked : Decimal)
    → let next = next_equity policy.hwm_reinvestment_fraction initial previous marked in
      next.risk_budget
      ≡ hwm_risk_budget next.high_water marked (record policy { initial_capital = initial })
unfolding next_equity hwm_risk_budget
next_equity-budget policy initial previous marked = refl

-- What a recording leaves in the system.
pub record IsRecorded (account : Account) (policy : V322Policy) (number : String → Number)
    (marked : Decimal) (system system' : System) (next : Equity) : Type 0 where
  pub initial : Decimal
  pub previous : Decimal
  pub initial_read : effective_initial_capital account number system ≡ ok initial
  pub previous_read : system_decimal number (system "v322_high_water_equity") initial ≡ ok previous
  pub never_lower : previous ≼ next.high_water
  pub reaches_marked : marked ≼ next.high_water
  pub reaches_initial : initial ≼ next.high_water
  pub budget :
      next.risk_budget
      ≡ hwm_risk_budget next.high_water marked (record policy { initial_capital = initial })
  pub mark_stored :
      system_decimal number (system' "v322_high_water_equity") initial ≡ ok next.high_water
  pub budget_stored :
      system_decimal number (system' "v322_risk_budget") initial ≡ ok next.risk_budget

module _ (account : Account) (policy : V322Policy) (number : String → Number)
    (text : Decimal → String) (marked : Decimal) (system : System) where
  -- the text of `d` is read as `d`
  abbrev pub Reads : Decimal → Type 0
  Reads d = number (text d) ≡ finite d

  -- A recording that returns, of values that their texts give back, has read the effective
  -- capital and the previous high-water mark; the new mark is at or above the previous one, the
  -- marked equity and that capital, the risk budget is that of the policy at that capital, and
  -- both are read back from the system that it leaves.
  pub record_v322_equity-IsRecorded :
      (system' : System) (next : Equity)
      → record_v322_equity account policy number text marked system ≡ ok (system', next)
      → Reads next.high_water
      → Reads next.risk_budget
      → IsRecorded account policy number marked system system' next
  unfolding record_v322_equity put_equity put_text
  record_v322_equity-IsRecorded system' next e =
      let (_, e1) = raise_if-eq-ok (less marked (of_ℕ 0)) negative_equity _ e in
      let (initial, initial_read, e2) =
        >>=-eq-ok (effective_initial_capital account number system) _ e1 in
      let (previous, previous_read, e3) =
        >>=-eq-ok (system_decimal number (system "v322_high_water_equity") initial) _ e2 in
      let fraction = policy.hwm_reinvestment_fraction in
      let n = next_equity fraction initial previous marked in
      let (a, b, c) = next_equity-bounds fraction initial previous marked in
      subst
        (λ (r : System × Equity).
          Reads r.1.high_water
          → Reads r.1.risk_budget
          → IsRecorded account policy number marked system r.0 r.1)
        (ok-injective e3)
        (λ mark budget. record {
          initial = initial;
          previous = previous;
          initial_read = initial_read;
          previous_read = previous_read;
          never_lower = a;
          reaches_marked = b;
          reaches_initial = c;
          budget = next_equity-budget policy initial previous marked;
          mark_stored = rw mark refl;
          budget_stored = rw budget refl;
        })
