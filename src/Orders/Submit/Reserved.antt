-- ===== src/Orders/Submit/Reserved.antt =====
-- The row that a reservation inserts.
use jh_holdings.Prelude.{
  ℕ, ◌≡◌, String, none, [], ◌∷◌, ◌++◌, Bool, true, false, not, arith, if◌then◌else◌, Result, ok,
  raise, >>=-eq-ok, raise_if-eq-ok, ok-injective, sym, ap, ◌∙◌,
}
use jh_holdings.Decimal.{Decimal}
use jh_holdings.Orders.Ledger.{Table, Side, buy, sell, find_order, reserve_order}
use jh_holdings.Orders.System.{Number}
use jh_holdings.Orders.Requests.{OrderRequest}
use jh_holdings.Orders.Books.{
  Account, Books, auto_enabled, raw_managed_cash, risk_budget_of, CashError,
}
use jh_holdings.Orders.Cash.Laws.{reserve_order-inserted}
use jh_holdings.Orders.Cash.{check_auto, check_core_target, reserve_buy_order, new_row}
use jh_holdings.Orders.Manager.{
  Settings, Call, not_reserved, halted, safe_mode_on, no_limit_price, no_buying_power,
  require_commissioned, buy_is_halted, safe_mode_blocked, require_live_auto,
}
use jh_holdings.Orders.Submit.{reserve_buy, reserve_by, reserve, given, cash_result}

tidy : Books × Bool → Table × Bool
tidy (books, inserted) = (books.orders, inserted)

reserve_buy_order-orders :
    (account : Account) (number : String → Number) (not_before : String → ℕ → Bool)
    (power : Decimal) (now : ℕ) (q : OrderRequest) (price : Decimal) (books : Books)
    (r : Books × Bool)
    → reserve_buy_order account number not_before power now q price books ≡ ok r
    → tidy r ≡ reserve_order (new_row q now) books.orders
unfolding reserve_buy_order tidy
reserve_buy_order-orders account number not_before power now q price books r e =
    let (_, _, e1) =
      >>=-eq-ok (if auto_enabled books.system then check_auto number books.system else ok tt) _ e in
    let (_, _, e2) =
      >>=-eq-ok (raw_managed_cash account number not_before books.system books.orders) _ e1 in
    let (_, _, e3) = >>=-eq-ok (risk_budget_of account number books.system) _ e2 in
    let (_, _, e4) = >>=-eq-ok (check_core_target account books q _ price) _ e3 in
    let (_, e5) = raise_if-eq-ok _ _ _ e4 in sym (ap tidy (ok-injective e5))

reserve_buy-orders :
    (s : Settings) (number : String → Number) (not_before : String → ℕ → Bool) (call : Call)
    (q : OrderRequest) (books : Books) (r : Books × Bool)
    → reserve_buy s number not_before call q books ≡ ok r
    → tidy r ≡ reserve_order (new_row q call.now) books.orders
unfolding reserve_buy
reserve_buy-orders s number not_before call q books r e =
    let (stopped, _, e1) = >>=-eq-ok (buy_is_halted s.live call.before.system) _ e in
    let (_, e2) = raise_if-eq-ok stopped halted _ e1 in
    let (_, e3) = raise_if-eq-ok (safe_mode_blocked s call.before q.symbol) safe_mode_on _ e2 in
    let (_, _, e4) = >>=-eq-ok (require_live_auto s number call.before false) _ e3 in
    let (price, _, e5) = >>=-eq-ok (given q.price no_limit_price) _ e4 in
    let (power, _, e6) = >>=-eq-ok (given call.buying_power no_buying_power) _ e5 in
    reserve_buy_order-orders s.account number not_before power call.now q price
      (record books { system = call.before.system }) r (cash_result-eq-ok _ r e6)
  where
    cash_result-eq-ok :
        (m : Result CashError (Books × Bool)) (r : Books × Bool) → cash_result m ≡ ok r → m ≡ ok r
    cash_result-eq-ok (ok a) r h = ap ok (ok-injective h)
    cash_result-eq-ok (raise x) r h = cc

reserve_by-orders :
    (side : Side) (s : Settings) (number : String → Number) (not_before : String → ℕ → Bool)
    (call : Call) (q : OrderRequest) (books : Books) (r : Table × Bool)
    → reserve_by side s number not_before call q books ≡ ok r
    → r ≡ reserve_order (new_row q call.now) books.orders
unfolding tidy
reserve_by-orders buy s number not_before call q books r e =
    let (b, done, e1) = >>=-eq-ok (reserve_buy s number not_before call q books) _ e in
    sym (ok-injective e1) ∙ reserve_buy-orders s number not_before call q books b done
reserve_by-orders sell s number not_before call q books r e = sym (ok-injective e)

pub reserve-new :
    (s : Settings) (number : String → Number) (not_before : String → ℕ → Bool) (call : Call)
    (q : OrderRequest) (books : Books) (t : Table)
    → reserve s number not_before call q books ≡ ok t
    → (find_order q.client_order_id books.orders ≡ none)
      × (t ≡ books.orders ++ new_row q call.now ∷ [])
      × (reserve_order (new_row q call.now) books.orders ≡ (t, true))
unfolding reserve
reserve-new s number not_before call q books t e =
    let (_, _, e1) = >>=-eq-ok (require_commissioned s call.before.system) _ e in
    let ((orders, inserted), done, e2) =
      >>=-eq-ok (reserve_by q.side s number not_before call q books) _ e1 in
    let (flag, e3) = raise_if-eq-ok (not inserted) not_reserved _ e2 in
    let yes' : inserted ≡ true = ground arith in
    let same : orders ≡ t = ok-injective e3 in
    let at =
      sym (reserve_by-orders q.side s number not_before call q books (orders, inserted) done) in
    let at' : reserve_order (new_row q call.now) books.orders ≡ (t, true) = cc in
    let (free, eq) = reserve_order-inserted (new_row q call.now) books.orders t at' in
    (unfold new_row in free, eq, at')
