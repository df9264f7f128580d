-- ===== src/Broker/Laws.antt =====
-- The shares held and the applied fills of the orders.
pub mod Runs
use jh_holdings.Prelude.{
  ℕ, ◌+◌, ◌-◌, ◌≤◌, ◌≡◌, refl, sym, subst, ap, ◌∙◌, inl, inr, String, Option, none, some, List, [],
  ◌∷◌, ◌++◌, Bool, true, false, not, ◌||◌, ltb, ◌==◌, arith, if◌then◌else◌, str_eq, eq_iff, Result,
  ok, raise, ◌>>=◌, ◌>>◌, raise_if, Bool-cases, ok-injective, >>=-eq-ok, raise_if-eq-ok,
}
use jh_holdings.Decimal.{Decimal, of_ℕ, ◌⊖◌, less}
use jh_holdings.Orders.Ledger.{Side, buy, sell}
use jh_holdings.Broker.Accounts.{
  DryOrder, DryHolding, Account, DryError, fill_shrinks, oversold, find_holding, put_holding,
  notional, traded, applied_order, apply_fill,
}
use jh_holdings.Broker.Fills.{fill_one, fill_orders, fill_remaining, filled_order}

abbrev pub bought_by : Side → ℕ → ℕ
bought_by buy n = n
bought_by sell n = 0

abbrev pub sold_by : Side → ℕ → ℕ
sold_by buy n = 0
sold_by sell n = n

-- the shares of a symbol that an order's applied fill has bought, and sold
abbrev pub bought : String → DryOrder → ℕ
bought s o = if str_eq o.symbol s then bought_by o.side o.applied_quantity else 0

abbrev pub sold : String → DryOrder → ℕ
sold s o = if str_eq o.symbol s then sold_by o.side o.applied_quantity else 0

abbrev pub all_bought : String → List DryOrder → ℕ
all_bought s [] = 0
all_bought s (o ∷ rest) = bought s o + all_bought s rest

abbrev pub all_sold : String → List DryOrder → ℕ
all_sold s [] = 0
all_sold s (o ∷ rest) = sold s o + all_sold s rest

abbrev pub held : String → Account → ℕ
held s a = (find_holding s a.holdings).quantity

find-put_holding :
    (s : String) (new : DryHolding) (hs : List DryHolding)
    → (find_holding s (put_holding new hs)).quantity
      ≡ (if str_eq new.symbol s then new.quantity else (find_holding s hs).quantity)
unfolding find_holding put_holding
find-put_holding s new [] = ground arith
find-put_holding s new (h ∷ rest) = elim (Bool-cases (str_eq h.symbol new.symbol)) [
  | inl same ↦
      let e : h.symbol ≡ new.symbol = (eq_iff h.symbol new.symbol).0 same in
      rw same (same_case (str_eq new.symbol s) (str_eq h.symbol s) (λ i. str_eq (e i) s))
  | inr other ↦ elim (Bool-cases (str_eq h.symbol s)) [
    | inl here ↦ elim (Bool-cases (str_eq new.symbol s)) [
      | inl there ↦ cc (
        sym other,
        (eq_iff h.symbol new.symbol).1
            ((eq_iff h.symbol s).0 here ∙ sym ((eq_iff new.symbol s).0 there)),
      )
      | inr away ↦ rw (other, here, away) refl
    ]
    | inr away ↦ rw (other, away) (find-put_holding s new rest)
  ]
]
  where
    same_case :
        (b c : Bool)
        → c ≡ b
        → (if b then new else find_holding s rest).quantity
          ≡ (if b then new.quantity else (if c then h else find_holding s rest).quantity)
    same_case true c e = refl
    same_case false true e = cc
    same_case false false e = refl

abbrev here : Bool → ℕ → ℕ
here true n = n
here false n = 0

traded-held :
    (side : Side) (symbol : String) (delta : ℕ) (value : Decimal) (a a' : Account) (s : String)
    → traded side symbol delta value a ≡ ok a'
    → held s a' + here (str_eq symbol s) (sold_by side delta)
      ≡ held s a + here (str_eq symbol s) (bought_by side delta)
unfolding traded
traded-held buy symbol delta value a a' s h = elim (Bool-cases (str_eq symbol s)) [
  | inl same ↦
      rw
        (
          same,
          sym (ok-injective h),
          find-put_holding s _ a.holdings,
          same,
          (eq_iff symbol s).0 same,
        )
        (omega arith)
  | inr other ↦
      rw (other, sym (ok-injective h), find-put_holding s _ a.holdings, other) (omega arith)
]
traded-held sell symbol delta value a a' s h =
    let (enough, done) =
      raise_if-eq-ok (ltb (find_holding symbol a.holdings).quantity delta) oversold _ h in
    let le : delta ≤ (find_holding symbol a.holdings).quantity = ground arith in
    elim (Bool-cases (str_eq symbol s)) [
      | inl same ↦
          rw
            (
              same,
              sym (ok-injective done),
              find-put_holding s _ a.holdings,
              same,
              (eq_iff symbol s).0 same,
            )
            (omega (
              arith,
              subst (λ x. delta ≤ (find_holding x a.holdings).quantity) ((eq_iff symbol s).0 same)
                  le,
            ))
      | inr other ↦
          rw (other, sym (ok-injective done), find-put_holding s _ a.holdings, other) (omega arith)
    ]

-- What an applied fill adds to the holdings it adds to the order.
pub apply_fill-held :
    (o o' : DryOrder) (a a' : Account) (s : String)
    → apply_fill o a ≡ ok (o', a')
    → held s a' + (sold s o' + bought s o) ≡ held s a + (sold s o + bought s o')
unfolding apply_fill
apply_fill-held o o' a a' s h =
    let (grown, rest) =
      raise_if-eq-ok
        (ltb o.filled_quantity o.applied_quantity || less (notional o ⊖ o.applied_amount) (of_ℕ 0))
        fill_shrinks _ h in
    let le : o.applied_quantity ≤ o.filled_quantity = ground arith in
    elim (Bool-cases (o.filled_quantity == o.applied_quantity)) [
      | inl none_new ↦
          let e = ok-injective (rw none_new at rest) in
          let same_order : o ≡ o' = ap (λ (p : DryOrder × Account). p.0) e in
          let same_account : a ≡ a' = ap (λ (p : DryOrder × Account). p.1) e in
          omega (
            arith,
            ap (λ (x : Account). held s x) same_account,
            ap (λ (x : DryOrder). sold s x) same_order,
            ap (λ (x : DryOrder). bought s x) same_order,
          )
      | inr new ↦
          let (a'', t, e) =
            >>=-eq-ok
              (traded o.side o.symbol (o.filled_quantity - o.applied_quantity)
                (notional o ⊖ o.applied_amount) a)
              _ (rw new at rest) in
          let e' = ok-injective e in
          let same_order : applied_order o ≡ o' = ap (λ (p : DryOrder × Account). p.0) e' in
          let same_account : a'' ≡ a' = ap (λ (p : DryOrder × Account). p.1) e' in
          omega (
            arith,
            ap (λ (x : Account). held s x) same_account,
            ap (λ (x : DryOrder). sold s x) same_order,
            ap (λ (x : DryOrder). bought s x) same_order,
            traded-held o.side o.symbol (o.filled_quantity - o.applied_quantity) _ a a'' s t,
            difference (str_eq o.symbol s) o.side o.applied_quantity o.filled_quantity le,
          )
    ]
  where
    difference :
        (b : Bool) (side : Side) (m n : ℕ)
        → m ≤ n
        → (here b (bought_by side (n - m)) + (if b then bought_by side m else 0)
            ≡ (if b then bought_by side n else 0))
          × (here b (sold_by side (n - m)) + (if b then sold_by side m else 0)
              ≡ (if b then sold_by side n else 0))
    difference true buy m n h = (omega arith, omega arith)
    difference true sell m n h = (omega arith, omega arith)
    difference false side m n h = (omega arith, omega arith)
