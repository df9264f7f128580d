-- ===== src/Orders/Equity.antt =====
-- application/managed_account.py: `record_v322_equity`, which advances the high-water mark and the
-- risk budget. `text` is `str` of a `Decimal`.
pub mod Laws
use jh_holdings.Prelude.{
  String, ◌≡◌, refl, ap, ◌∙◌, Option, some, Bool, true, false, ◌==◌, if◌then◌else◌, str_eq, Result,
  ok, raise, ◌>>=◌, ◌>>◌, raise_if, >>=-eq-ok, raise_if-eq-ok, ok-injective, subst,
}
use jh_holdings.Decimal.{Decimal, of_ℕ, ◌⊕◌, ◌⊖◌, ◌⊗◌, less, min, max, ◌≼◌}
use jh_holdings.Decimal.Laws.{≼_trans, max-≽_left, max-≽_right}
use jh_holdings.Core.Allocation.{V322Policy, hwm_risk_budget}
use jh_holdings.Orders.System.{System, Number, finite}
use jh_holdings.Orders.Books.{
  CashError, negative_equity, Account, effective_initial_capital, system_decimal, finite_or_corrupt,
}

-- the insertion or update of one key
unfoldable pub put_text : String → String → System → System
put_text key value system k = if str_eq k key then some value else system k

pub record Equity : Type 0 where
  pub high_water : Decimal
  pub risk_budget : Decimal

-- the two values, from the effective initial capital, the previous mark and the marked equity
unfoldable pub next_equity : (fraction initial previous marked : Decimal) → Equity
next_equity fraction initial previous marked =
    let high_water = max (max previous marked) initial in
    let gain = max (of_ℕ 0) (high_water ⊖ initial) in
    record {
      high_water = high_water;
      risk_budget = max (of_ℕ 0) (min (initial ⊕ fraction ⊗ gain) marked);
    }

unfoldable pub put_equity : (Decimal → String) → Equity → System → System
put_equity text e system =
    put_text "v322_risk_budget" (text e.risk_budget)
      (put_text "v322_high_water_equity" (text e.high_water) system)

unfoldable pub record_v322_equity :
    Account
    → V322Policy
    → (String → Number)
    → (Decimal → String)
    → (marked : Decimal) → System
    → Result CashError (System × Equity)
record_v322_equity account policy number text marked system = do
  raise_if (less marked (of_ℕ 0)) negative_equity
  initial ← effective_initial_capital account number system
  previous ← system_decimal number (system "v322_high_water_equity") initial
  let next = next_equity policy.hwm_reinvestment_fraction initial previous marked
  ok (put_equity text next system, next)
