-- ===== src/Orders/Cash/Laws.antt =====
-- What a successful reservation of a BUY leaves of the managed cash.
use jh_holdings.Prelude.{
  ℕ, ◌<◌, ◌≡◌, refl, inl, inr, String, none, some, [], ◌∷◌, ◌++◌, Bool, true, arith, if◌then◌else◌,
  Result, ok, raise, ◌>>=◌, Bool-cases, Option-cases, >>=-eq-ok, raise_if-eq-ok, ok-injective,
  subst, sym, ap, ◌∙◌,
}
use jh_holdings.Decimal.{Decimal, of_ℕ, ◌⊕◌, ◌⊖◌, ◌⊗◌, less, min, max, ◌≼◌, ◌≺◌}
use jh_holdings.Decimal.Laws.{
  ≼_trans, ≼-⊖_iff, ≼_of_not_less, min-≼_left, min-≼_right, ⊗_pos, one_more-pos, ≺_of_parts,
  not_leq_of_≺,
}
use jh_holdings.Orders.Ledger.{OrderRow, Table, buy, find_order, reserve_order}
use jh_holdings.Orders.System.{System, Number}
use jh_holdings.Orders.Requests.{OrderRequest}
use jh_holdings.Orders.Books.{
  CashError, not_enough_cash, Account, Books, auto_enabled, raw_managed_cash, apply_cash, cash_from,
  risk_budget_of, managed_cost_basis, reserved_open_buy, hold_back, reserved_from,
  effective_initial_capital,
}
use jh_holdings.Orders.Cash.{
  check_auto, check_core_target, required, available, new_row, reserve_buy_order,
}

-- One more row at the end of a loop over the rows is one more step of the loop.
reserved_from-append :
    (fee acc : Decimal) (t : Table) (row : OrderRow)
    → reserved_from fee acc (t ++ row ∷ []) ≡ hold_back fee (reserved_from fee acc t) row
unfolding reserved_from
reserved_from-append fee acc [] row = refl
reserved_from-append fee acc (r ∷ t) row = reserved_from-append fee (hold_back fee acc r) t row

>>=-cong :
    {A B : Type 0} (m : Result CashError A) (f g : A → Result CashError B)
    → ((a : A) → f a ≡ g a)
    → (m >>= f) ≡ (m >>= g)
>>=-cong (ok a) f g h = h a
>>=-cong (raise x) f g h = refl

cash_from-append :
    (account : Account) (selected : ℕ → Bool) (balance : Decimal) (t : Table) (row : OrderRow)
    → row.filled_qty ≡ 0
    → cash_from account selected balance (t ++ row ∷ []) ≡ cash_from account selected balance t
unfolding cash_from apply_cash
cash_from-append account selected balance [] row e = ground arith
cash_from-append account selected balance (r ∷ t) row e =
    >>=-cong (apply_cash account selected balance r) _ _
      (λ changed. cash_from-append account selected changed t row e)

-- A positive amount that is within a clamped amount is within the amount.
within_clamped : (a x : Decimal) → of_ℕ 0 ≺ a → a ≼ max (of_ℕ 0) x → a ≼ x
unfolding max
within_clamped a x p h = elim (Bool-cases (less (of_ℕ 0) x)) [
  | inl e ↦ rw e at h
  | inr e ↦ let no = not_leq_of_≺ (of_ℕ 0) a p in let yes' = rw e at h in cc
]

reserved_row :
    (account : Account) (request : OrderRequest) (price reserved : Decimal) (now : ℕ)
    → request.price ≡ some price
    → request.side ≡ buy
    → 0 < request.quantity
    → hold_back account.buy_fee reserved (new_row request now)
      ≡ reserved ⊕ required account request.quantity price
unfolding hold_back new_row
reserved_row account request price reserved now p s q = rw (s, p) (ground arith)

raw_managed_cash-append :
    (account : Account) (number : String → Number) (not_before : String → ℕ → Bool)
    (system : System) (t : Table) (row : OrderRow)
    → row.filled_qty ≡ 0
    → raw_managed_cash account number not_before system (t ++ row ∷ [])
      ≡ raw_managed_cash account number not_before system t
unfolding raw_managed_cash
raw_managed_cash-append account number not_before system t row e =
    >>=-cong (effective_initial_capital account number system) _ _
      (λ balance. rw (cash_from-append account _ balance t row e) refl)

pub reserve_order-inserted :
    (row : OrderRow) (t t' : Table)
    → reserve_order row t ≡ (t', true)
    → (find_order row.client_order_id t ≡ none) × (t' ≡ t ++ row ∷ [])
unfolding reserve_order
reserve_order-inserted row t t' e = elim (Option-cases (find_order row.client_order_id t)) [
  | inl free ↦ let e' = rw free at e in (free, cc)
  | inr (old, taken) ↦ let e' = rw taken at e in cc
]

-- What a reservation has spent, measured in the books that it leaves.
pub record IsCovered (account : Account) (number : String → Number) (not_before : String → ℕ → Bool)
    (broker_available spent : Decimal) (books : Books) : Type 0 where
  pub cash : Decimal
  pub budget : Decimal
  pub cash_read : raw_managed_cash account number not_before books.system books.orders ≡ ok cash
  pub budget_read : risk_budget_of account number books.system ≡ ok budget
  pub within_cash : reserved_open_buy account books.orders ≼ cash
  pub within_budget :
      managed_cost_basis account books ⊕ reserved_open_buy account books.orders ≼ budget
  pub within_broker : spent ≼ broker_available

module _ (account : Account) (number : String → Number) (not_before : String → ℕ → Bool)
    (broker_available : Decimal) (now : ℕ) (request : OrderRequest) (price : Decimal)
    (priced : request.price ≡ some price) (buys : request.side ≡ buy)
    (shares : 0 < request.quantity) (positive : of_ℕ 0 ≺ price)
    (fee : of_ℕ 0 ≼ account.buy_fee) where
  spent : Decimal
  spent = required account request.quantity price

  spent-positive : of_ℕ 0 ≺ spent
  unfolding spent
  spent-positive =
      ⊗_pos (of_ℕ request.quantity ⊗ price) (of_ℕ 1 ⊕ account.buy_fee)
        (⊗_pos (of_ℕ request.quantity) price
          (≺_of_parts (of_ℕ 0) (of_ℕ request.quantity) (omega (arith, shares))) positive)
        (one_more-pos account.buy_fee fee)

  available-bounds :
      (raw reserved budget invested : Decimal)
      → spent ≼ available raw reserved budget invested broker_available
      → (reserved ⊕ spent ≼ raw)
        × (invested ⊕ (reserved ⊕ spent) ≼ budget)
        × (spent ≼ broker_available)
  unfolding available
  available-bounds raw reserved budget invested h =
      let a = raw ⊖ reserved in
      let b = budget ⊖ invested ⊖ reserved in
      let low = within_clamped spent (min (min a b) broker_available) spent-positive h in
      let both =
        ≼_trans spent (min (min a b) broker_available) (min a b) low
          (min-≼_left (min a b) broker_available) in
      (
        ≼-⊖_iff raw reserved spent (≼_trans spent (min a b) a both (min-≼_left a b)),
        ≼-⊖_iff budget invested (reserved ⊕ spent) (
            ≼-⊖_iff (budget ⊖ invested) reserved spent
              (≼_trans spent (min a b) b both (min-≼_right a b))),
        ≼_trans spent (min (min a b) broker_available) broker_available low
            (min-≼_right (min a b) broker_available),
      )

  with_row : Books → Books
  with_row books = record books { orders = books.orders ++ new_row request now ∷ [] }

  books-inserted :
      (books books' : Books)
      → ◌≡◌ {A = Books × Bool}
          (
            record books { orders = (reserve_order (new_row request now) books.orders).0 },
            (reserve_order (new_row request now) books.orders).1,
          )
          (books', true)
      → books' ≡ with_row books
  unfolding with_row
  books-inserted books books' e =
      let t = reserve_order (new_row request now) books.orders in
      let flag : t.1 ≡ true = ap (λ (p : Books × Bool). p.1) e in
      let at : t ≡ (t.0, true) = cc in
      sym (ap (λ (p : Books × Bool). p.0) e)
      ∙ ap (λ (o : Table). record books { orders = o })
          (reserve_order-inserted (new_row request now) books.orders t.0 at).1

  inserted-IsCovered :
      (books : Books) (raw budget : Decimal)
      → raw_managed_cash account number not_before books.system books.orders ≡ ok raw
      → risk_budget_of account number books.system ≡ ok budget
      → (reserved_open_buy account books.orders ⊕ spent ≼ raw)
        × (managed_cost_basis account books ⊕ (reserved_open_buy account books.orders ⊕ spent)
            ≼ budget)
        × (spent ≼ broker_available)
      → IsCovered account number not_before broker_available spent (with_row books)
  unfolding with_row spent managed_cost_basis
  inserted-IsCovered books raw budget cash risk (in_cash, in_budget, in_broker) =
      let row = new_row request now in
      let reserved =
        reserved_from-append account.buy_fee (of_ℕ 0) books.orders row
        ∙ reserved_row account request price (reserved_open_buy account books.orders) now priced
            buys shares in
      record {
        cash = raw;
        budget = budget;
        cash_read =
            raw_managed_cash-append account number not_before books.system books.orders row
              (unfold new_row in refl)
            ∙ cash;
        budget_read = risk;
        within_cash = rw reserved in_cash;
        within_budget = rw reserved in_budget;
        within_broker = in_broker;
      }

  -- A BUY with a positive price and quantity, at a fee that is not negative, that is reserved
  -- leaves the open buys, with it among them, within the managed cash, the cost basis and the
  -- open buys within the risk budget, and its own cost within the buying power of the broker.
  pub reserve_buy_order-IsCovered :
      (books books' : Books)
      → reserve_buy_order account number not_before broker_available now request price books
        ≡ ok (books', true)
      → IsCovered account number not_before broker_available
          (required account request.quantity price)
          books'
  unfolding reserve_buy_order spent
  reserve_buy_order-IsCovered books books' e =
      let (u, _, e1) =
        >>=-eq-ok (if auto_enabled books.system then check_auto number books.system else ok tt) _
          e in
      let (raw, cash, e2) =
        >>=-eq-ok (raw_managed_cash account number not_before books.system books.orders) _ e1 in
      let (budget, risk, e3) = >>=-eq-ok (risk_budget_of account number books.system) _ e2 in
      let (u', _, e4) = >>=-eq-ok (check_core_target account books request budget price) _ e3 in
      let reserved = reserved_open_buy account books.orders in
      let invested = managed_cost_basis account books in
      let most = available raw reserved budget invested broker_available in
      let (enough, e5) = raise_if-eq-ok (less most spent) not_enough_cash _ e4 in
      let bounds =
        available-bounds raw reserved budget invested (≼_of_not_less spent most enough) in
      subst (IsCovered account number not_before broker_available spent)
        (sym (books-inserted books books' (ok-injective e5)))
        (inserted-IsCovered books raw budget cash risk bounds)
