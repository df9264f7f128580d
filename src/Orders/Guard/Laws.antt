-- ===== src/Orders/Guard/Laws.antt =====
-- What a live BUY may rely on once the guard of JH AUTO has let it pass.
use jh_holdings.Prelude.{
  String, ◌≡◌, refl, Bool, true, false, not, ◌&&◌, ◌||◌, arith, ok, >>=-eq-ok, raise_if-eq-ok,
}
use jh_holdings.Decimal.{of_ℕ, ratio, ◌⊕◌, ◌⊗◌, leq, less, same, quantize_down, ◌≼◌, ◌≺◌, ◌≈◌}
use jh_holdings.Decimal.Laws.{≼_trans, ≺_of_not_leq, ≼_of_not_less}
use jh_holdings.Orders.System.{System, Number, text_is}
use jh_holdings.Orders.Guard.{
  auto_contract_is_present, auto_version, check_flags, Capital, read_capital, maximum_budget,
  check_capital, check_contract, require_live_auto_buy_contract, not_regular,
}

-- The capital that the contract admits.
pub record IsCovered (c : Capital) : Type 0 where
  pub positive : of_ℕ 0 ≺ c.effective
  pub in_target : c.effective ≼ c.target
  pub target : c.target ≈ quantize_down 100 (c.base ⊗ c.ratio_)
  pub base : c.base ≼ of_ℕ 10_000_000
  pub share : c.ratio_ ≼ of_ℕ 1
  pub reached : c.effective ≼ c.high_water
  pub budget : c.risk_budget ≼ maximum_budget c ⊕ ratio 1 100

-- The flags and the numbers, as the system has them.
pub record Holds (number : String → Number) (system : System) (c : Capital) : Type 0 where
  pub enabled : text_is (system "jh_auto_enabled") "1" ≡ true
  pub version : text_is (system "jh_auto_version") auto_version ≡ true
  pub authorized : text_is (system "jh_auto_launch_authorized") "1" ≡ true
  pub not_quarantined : text_is (system "jh_auto_startup_quarantine") "0" ≡ true
  pub not_halted : text_is (system "jh_auto_operator_halt_latched") "0" ≡ true
  pub running : text_is (system "jh_auto_state") "RUNNING" ≡ true
  pub read : read_capital number system ≡ ok c
  pub covered : IsCovered c

flags_lem :
    (system : System)
    → check_flags system ≡ ok tt
    → (text_is (system "jh_auto_enabled") "1" ≡ true)
      × (text_is (system "jh_auto_version") auto_version ≡ true)
      × (text_is (system "jh_auto_launch_authorized") "1" ≡ true)
      × (text_is (system "jh_auto_startup_quarantine") "0" ≡ true)
      × (text_is (system "jh_auto_operator_halt_latched") "0" ≡ true)
      × (text_is (system "jh_auto_state") "RUNNING" ≡ true)
unfolding check_flags
flags_lem system e =
    let (a, e1) = raise_if-eq-ok _ _ _ e in
    let (b, e2) = raise_if-eq-ok _ _ _ e1 in
    let (c, e3) = raise_if-eq-ok _ _ _ e2 in
    let (d, e4) = raise_if-eq-ok _ _ _ e3 in
    let (f, e5) = raise_if-eq-ok _ _ _ e4 in
    let (g, _) = raise_if-eq-ok _ _ _ e5 in
    (not_false a, not_false b, not_false c, not_false d, not_false f, not_false g)
  where
    not_false : {b : Bool} → not b ≡ false → b ≡ true
    not_false {b} h = ground arith

check_capital-IsCovered : (c : Capital) → check_capital c ≡ ok tt → IsCovered c
unfolding check_capital same
check_capital-IsCovered c e =
    let (b, e1) =
      raise_if-eq-ok (not (leq (of_ℕ 100) c.base && leq c.base (of_ℕ 10_000_000))) _ _ e in
    let (r, e2) =
      raise_if-eq-ok (not (leq (ratio 1 100) c.ratio_ && leq c.ratio_ (ratio 100 100))) _ _ e1 in
    let goal = quantize_down 100 (c.base ⊗ c.ratio_) in
    let (t, e3) = raise_if-eq-ok (not (leq c.target goal && leq goal c.target)) _ _ e2 in
    let (f, e4) = raise_if-eq-ok (leq c.effective (of_ℕ 0) || less c.target c.effective) _ _ e3 in
    let (h, e5) = raise_if-eq-ok (less c.high_water c.effective) _ _ e4 in
    let limit = maximum_budget c ⊕ ratio 1 100 in
    let (k, _) = raise_if-eq-ok (less c.risk_budget (of_ℕ 0) || less limit c.risk_budget) _ _ e5 in
    record {
      positive = ≺_of_not_leq c.effective (of_ℕ 0) (ground arith);
      in_target = ≼_of_not_less c.effective c.target (ground arith);
      target = (ground arith, ground arith);
      base = ground arith;
      share = ≼_trans c.ratio_ (ratio 100 100) (of_ℕ 1) (ground arith) (unfold leq in refl);
      reached = ≼_of_not_less c.effective c.high_water h;
      budget = ≼_of_not_less c.risk_budget limit (ground arith);
    }

-- A guard that raises nothing where the contract is present has read every flag in its safe
-- position and six finite numbers whose capital is covered: a positive effective principal
-- within the target and the high-water mark, the target the rounded-down share of a base of at
-- most ten million, and a risk budget within the recomputed limit; and if a regular session was
-- demanded, the session is regular.
pub require_live_auto_buy_contract-Holds :
    (number : String → Number) (marked : Bool) (system : System) (regular require_regular : Bool)
    → auto_contract_is_present marked system ≡ true
    → require_live_auto_buy_contract number marked system regular require_regular ≡ ok tt
    → ((c : Capital) × Holds number system c) × (require_regular ≡ true → regular ≡ true)
unfolding require_live_auto_buy_contract check_contract
require_live_auto_buy_contract-Holds number marked system regular require_regular present e =
    let e0 = rw present at e in
    let (unit, flags, e1) = >>=-eq-ok (check_flags system) _ e0 in
    let (c, read, e2) = >>=-eq-ok (read_capital number system) _ e1 in
    let (unit', covered, e3) = >>=-eq-ok (check_capital c) _ e2 in
    let (session, _) = raise_if-eq-ok (require_regular && not regular) not_regular _ e3 in
    let (a, b, d, f, g, h) = flags_lem system flags in
    (
      (
        c,
        record {
          enabled = a;
          version = b;
          authorized = d;
          not_quarantined = f;
          not_halted = g;
          running = h;
          read = read;
          covered = check_capital-IsCovered c covered;
        },
      ),
      λ asked. ground arith,
    )
