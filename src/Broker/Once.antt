-- ===== src/Broker/Once.antt =====
-- A client id that is placed again.
use jh_holdings.Prelude.{
  ℕ, ◌-◌, ◌+◌, ◌≡◌, refl, sym, ap, ◌∙◌, inl, inr, Option, none, some, List, [], ◌∷◌, ◌++◌, Bool,
  true, false, ◌||◌, ltb, ◌==◌, arith, if◌then◌else◌, Result, ok, raise, Bool-cases, ok-injective,
  >>=-eq-ok, raise_if-eq-ok,
}
use jh_holdings.Decimal.{Decimal, of_ℕ, ◌⊖◌, less}
use jh_holdings.Orders.Requests.{OrderRequest}
use jh_holdings.Broker.{
  DryRunBroker, find_price, find_client, fillable, new_order, booked, enter, entered, placed,
  place_order,
}
use jh_holdings.Broker.Accounts.{
  DryOrder, Account, DryError, fill_shrinks, notional, traded, apply_fill,
}

apply_fill-client :
    (o o' : DryOrder) (a a' : Account)
    → apply_fill o a ≡ ok (o', a')
    → o'.client_order_id ≡ o.client_order_id
unfolding apply_fill
apply_fill-client o o' a a' h =
    let (grown, rest) =
      raise_if-eq-ok
        (ltb o.filled_quantity o.applied_quantity || less (notional o ⊖ o.applied_amount) (of_ℕ 0))
        fill_shrinks _ h in
    elim (Bool-cases (o.filled_quantity == o.applied_quantity)) [
      | inl none_new ↦
          ap (λ (p : DryOrder × Account). p.0.client_order_id)
            (sym (ok-injective (rw none_new at rest)))
      | inr new ↦
          let (a'', t, e) =
            >>=-eq-ok
              (traded o.side o.symbol (o.filled_quantity - o.applied_quantity)
                (notional o ⊖ o.applied_amount) a)
              _ (rw new at rest) in
          ap (λ (p : DryOrder × Account). p.0.client_order_id) (sym (ok-injective e))
    ]

find_client-append :
    (id : ℕ) (os : List DryOrder) (o : DryOrder)
    → find_client id os ≡ none
    → o.client_order_id ≡ id
    → find_client id (os ++ o ∷ []) ≡ some o
unfolding find_client
find_client-append id [] o h e = ground arith
find_client-append id (x ∷ os) o h e = ground (arith, find_client-append id os o)

-- The order that was answered is the one found for its client id from then on.
booked-found :
    (id : ℕ) (o : DryOrder) (b : DryRunBroker) (r : Result DryError (DryOrder × Account))
    (answer : DryOrder)
    → find_client id b.orders ≡ none
    → ((o' : DryOrder) (a' : Account) → r ≡ ok (o', a') → o'.client_order_id ≡ id)
    → (booked r o b).1 ≡ ok answer
    → find_client id (booked r o b).0.orders ≡ some answer
booked-found id o b (ok (o', a')) answer absent k h =
    find_client-append id b.orders o' absent (k o' a' refl) ∙ ap some (ok-injective h)
booked-found id o b (raise e) answer absent k h = cc

enter-found :
    (request : OrderRequest) (current : Decimal) (b : DryRunBroker) (answer : DryOrder)
    → find_client request.client_order_id b.orders ≡ none
    → (enter request current b).1 ≡ ok answer
    → find_client request.client_order_id (enter request current b).0.orders ≡ some answer
unfolding enter
enter-found request current b answer absent =
    by_test (fillable request current)
      (new_order b.sequence request current (fillable request current)) refl
  where
    by_test :
        (t : Bool) (o : DryOrder)
        → o.client_order_id ≡ request.client_order_id
        → (if t then booked (apply_fill o b.account) o b else booked (ok (o, b.account)) o b).1
          ≡ ok answer
        → find_client request.client_order_id
            (if t
              then booked (apply_fill o b.account) o b
              else booked (ok (o, b.account)) o b).0.orders
          ≡ some answer
    by_test true o e =
        booked-found request.client_order_id o b (apply_fill o b.account) answer absent
          (λ o' a' h. apply_fill-client o o' b.account a' h ∙ e)
    by_test false o e =
        booked-found request.client_order_id o b (ok (o, b.account)) answer absent (λ o' a' h.
          ap (λ (p : DryOrder × Account). p.0.client_order_id) (sym (ok-injective h)) ∙ e)

placed-found :
    (old : Option DryOrder) (request : OrderRequest) (b : DryRunBroker) (answer : DryOrder)
    → find_client request.client_order_id b.orders ≡ old
    → (placed old request b).1 ≡ ok answer
    → find_client request.client_order_id (placed old request b).0.orders ≡ some answer
placed-found (some o) request b answer e h = e ∙ ap some (ok-injective h)
placed-found none request b answer e h = entered-found (find_price request.symbol b.prices) h
  where
    entered-found :
        (price : Option Decimal)
        → (entered price request (record b { sequence = b.sequence + 1 })).1 ≡ ok answer
        → find_client request.client_order_id
            (entered price request (record b { sequence = b.sequence + 1 })).0.orders
          ≡ some answer
    entered-found none h = cc
    entered-found (some current) h =
        enter-found request current (record b { sequence = b.sequence + 1 }) answer e h

-- Once the dry-run broker has answered an order, any request with the same client id is answered
-- with that order and changes nothing.
pub place_order-again :
    (request again : OrderRequest) (b : DryRunBroker) (answer : DryOrder)
    → (place_order request b).1 ≡ ok answer
    → again.client_order_id ≡ request.client_order_id
    → place_order again (place_order request b).0 ≡ ((place_order request b).0, ok answer)
unfolding place_order
place_order-again request again b answer h same =
    ap (λ o. placed o again (place_order request b).0)
      (ap (λ id. find_client id (place_order request b).0.orders) same
        ∙ placed-found (find_client request.client_order_id b.orders) request b answer refl h)
