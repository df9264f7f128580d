-- ===== src/Orders/Guard.antt =====
-- application/jh_auto_guard.py: the contract of JH AUTO that every live BUY must meet.
-- `number` is `decimal.Decimal` of a text, `marked` is the attribute `_jh_auto_live_required`, and
-- `regular` is whether the market clock calls the current time a regular session.
pub mod Laws
use jh_holdings.Prelude.{
  String, Option, none, some, Bool, true, false, not, ◌&&◌, ◌||◌, Result, ok, raise, ◌>>=◌, ◌>>◌,
  raise_if, str_eq, if◌then◌else◌,
}
use jh_holdings.Decimal.{Decimal, of_ℕ, ratio, ◌⊕◌, ◌⊖◌, ◌⊗◌, leq, less, same, max, quantize_down}
use jh_holdings.Orders.System.{System, Number, malformed, not_finite, finite, text_is, is_present}

pub data GuardError : Type 0 where
  value_missing value_corrupt value_not_finite : GuardError
  not_enabled wrong_version not_authorized quarantined operator_halted not_running : GuardError
  base_out_of_range ratio_out_of_range target_mismatch effective_out_of_range : GuardError
  high_water_too_low budget_exceeded not_regular : GuardError

abbrev from_number : Number → Result GuardError Decimal
from_number malformed = raise value_corrupt
from_number not_finite = raise value_not_finite
from_number (finite d) = ok d

-- `_decimal`, on the text under the key
abbrev pub decimal_of : (String → Number) → Option String → Result GuardError Decimal
decimal_of number none = raise value_missing
decimal_of number (some raw) = raise_if (str_eq raw "") value_missing >> from_number (number raw)

unfoldable pub auto_contract_is_present : Bool → System → Bool
auto_contract_is_present marked system =
    marked || (is_present (system "jh_auto_version") || is_present (system "jh_auto_enabled"))

-- `AUTO_VERSION`
abbrev pub auto_version : String
auto_version = "1.0.0"

-- the six tests of texts
unfoldable pub check_flags : System → Result GuardError (Unit {0})
check_flags system = do
  raise_if (not (text_is (system "jh_auto_enabled") "1")) not_enabled
  raise_if (not (text_is (system "jh_auto_version") auto_version)) wrong_version
  raise_if (not (text_is (system "jh_auto_launch_authorized") "1")) not_authorized
  raise_if (not (text_is (system "jh_auto_startup_quarantine") "0")) quarantined
  raise_if (not (text_is (system "jh_auto_operator_halt_latched") "0")) operator_halted
  raise_if (not (text_is (system "jh_auto_state") "RUNNING")) not_running
  ok tt

-- the six numbers of the capital
pub record Capital : Type 0 where
  pub base : Decimal
  pub ratio_ : Decimal
  pub target : Decimal
  pub effective : Decimal
  pub high_water : Decimal
  pub risk_budget : Decimal

unfoldable pub read_capital : (String → Number) → System → Result GuardError Capital
read_capital number system = do
  base ← decimal_of number (system "jh_auto_base_capital")
  ratio' ← decimal_of number (system "jh_auto_ratio")
  target ← decimal_of number (system "jh_auto_target_principal")
  effective ← decimal_of number (system "jh_auto_effective_principal")
  high_water ← decimal_of number (system "v322_high_water_equity")
  risk_budget ← decimal_of number (system "v322_risk_budget")
  ok (record {
    base = base;
    ratio_ = ratio';
    target = target;
    effective = effective;
    high_water = high_water;
    risk_budget = risk_budget;
  })

-- `maximum_hwm_budget`
abbrev pub maximum_budget : Capital → Decimal
maximum_budget c = c.effective ⊕ ratio 75 100 ⊗ max (of_ℕ 0) (c.high_water ⊖ c.effective)

unfoldable pub check_capital : Capital → Result GuardError (Unit {0})
check_capital c = do
  raise_if (not (leq (of_ℕ 100) c.base && leq c.base (of_ℕ 10_000_000))) base_out_of_range
  raise_if (not (leq (ratio 1 100) c.ratio_ && leq c.ratio_ (ratio 100 100))) ratio_out_of_range
  raise_if (not (same c.target (quantize_down 100 (c.base ⊗ c.ratio_)))) target_mismatch
  raise_if (leq c.effective (of_ℕ 0) || less c.target c.effective) effective_out_of_range
  raise_if (less c.high_water c.effective) high_water_too_low
  raise_if (less c.risk_budget (of_ℕ 0) || less (maximum_budget c ⊕ ratio 1 100) c.risk_budget)
      budget_exceeded
  ok tt

-- the body, once the contract is known to be present
unfoldable pub check_contract :
    (String → Number) → System → (regular require_regular : Bool) → Result GuardError (Unit {0})
check_contract number system regular require_regular = do
  check_flags system
  capital ← read_capital number system
  check_capital capital
  raise_if (require_regular && not regular) not_regular
  ok tt

unfoldable pub require_live_auto_buy_contract :
    (String → Number)
    → (marked : Bool) → System
    → (regular require_regular : Bool) → Result GuardError (Unit {0})
require_live_auto_buy_contract number marked system regular require_regular =
    let checked = check_contract number system regular require_regular in
    if auto_contract_is_present marked system then checked else ok tt
