-- ===== src/Orders/Submit/Effects.antt =====
-- What one submission does to the ledger and to the log of posted requests.
use jh_holdings.Prelude.{
  ℕ, ◌≡◌, refl, inl, inr, String, List, [], ◌∷◌, ◌++◌, ◌⊎◌, Bool, true, false, if◌then◌else◌,
  Result, ok, raise, sym, ap, ◌∙◌,
}
use jh_holdings.Orders.Ledger.{
  OrderRow, Table, Side, buy, sell, Update, update_order, unknown, rejected,
}
use jh_holdings.Orders.Ledger.History.{Write, update, write, write_all}
use jh_holdings.Orders.System.{Number}
use jh_holdings.Orders.Requests.{OrderRequest, OrderReceipt}
use jh_holdings.Orders.Manager.{
  SubmitError, Reply, receipt, toss, failed, Settings, Call, Desk, Outcome, with_orders, halted,
  safe_mode_on, buy_is_halted, safe_mode_blocked, require_live_auto,
}
use jh_holdings.Orders.Submit.{
  validate_receipt, status_update, receipt_update, update_then, refresh_existing, is_absent,
  local_receipt, resubmit, on_exception, reject, settle, post, place, send_unhalted, send_buy,
  send_by, send,
}

-- The ledger changed by ledger writes alone.
abbrev pub Wrote : Desk → Desk → Type 0
Wrote d d' = (ws : List Write) × (d'.books.orders ≡ write_all ws d.books.orders)

-- Nothing was posted.
abbrev pub Quiet : Desk → Desk → Type 0
Quiet d d' = Wrote d d' × (d'.posted ≡ d.posted)

pub Quiet-refl : (d : Desk) → Quiet d d
unfolding write_all
Quiet-refl d = (([], refl), refl)

write_all-append :
    (xs ys : List Write) (t : Table) → write_all (xs ++ ys) t ≡ write_all ys (write_all xs t)
unfolding write_all
write_all-append [] ys t = refl
write_all-append (w ∷ xs) ys t = write_all-append xs ys (write w t)

pub Wrote-trans : (a b c : Desk) → Wrote a b → Wrote b c → Wrote a c
Wrote-trans a b c (xs, p) (ys, q) =
    (xs ++ ys, q ∙ ap (write_all ys) p ∙ sym (write_all-append xs ys a.books.orders))

pub Quiet-trans : (a b c : Desk) → Quiet a b → Quiet b c → Quiet a c
Quiet-trans a b c (p, s) (q, r) = (Wrote-trans a b c p q, r ∙ s)

update_then-Quiet :
    (id : ℕ) (u : Update) (o : Result SubmitError OrderReceipt) (d : Desk)
    → Quiet d (update_then id u o d).0
unfolding update_then
update_then-Quiet id u o d = go (update_order id u d.books.orders) refl
  where
    go :
        (r : Result _ Table)
        → update_order id u d.books.orders ≡ r
        → Quiet d (update_then id u o d).0
    go (ok t) e =
        rw (e, update_then) ((update id u ∷ [], unfold write_all write in rw e refl), refl)
    go (raise x) e = rw (e, update_then) (Quiet-refl d)

pub Result-cases :
    {E A : Type 0} (r : Result E A) → ((a : A) × (r ≡ ok a)) ⊎ ((e : E) × (r ≡ raise e))
Result-cases (ok a) = inl (a, refl)
Result-cases (raise e) = inr (e, refl)

if-Quiet :
    (d : Desk) (b : Bool) (x y : Outcome)
    → Quiet d x.0
    → Quiet d y.0
    → Quiet d (if b then x else y).0
if-Quiet d true x y p q = p
if-Quiet d false x y p q = q

pub on_exception-Quiet : (id : ℕ) (e : SubmitError) (d : Desk) → Quiet d (on_exception id e d).0
unfolding on_exception
on_exception-Quiet id e d =
    if-Quiet d _ (d, raise e) (update_then id (status_update unknown) (raise e) d) (Quiet-refl d)
      (update_then-Quiet id (status_update unknown) (raise e) d)

pub reject-Quiet : (id : ℕ) (e : SubmitError) (d : Desk) → Quiet d (reject id e d).0
unfolding reject
reject-Quiet id e d =
    elim (Result-cases (update_order id (status_update rejected) d.books.orders)) [
      | inl (t, h) ↦
          let first : Quiet d (with_orders d t) = (
            (update id (status_update rejected) ∷ [], unfold write_all write in rw h refl),
            refl,
          ) in
          rw (h, reject)
            (Quiet-trans d (with_orders d t) (on_exception id e (with_orders d t)).0 first
              (on_exception-Quiet id e (with_orders d t)))
      | inr (x, h) ↦ rw (h, reject) (on_exception-Quiet id _ d)
    ]

settle-Quiet : (reply : Reply) (q : OrderRequest) (d : Desk) → Quiet d (settle reply q d).0
unfolding settle
settle-Quiet (receipt r) q d =
    elim (Result-cases (validate_receipt r q.client_order_id q.symbol q.side q.quantity)) [
      | inl (u, h) ↦
          rw (h, settle) (update_then-Quiet q.client_order_id (receipt_update r) (ok r) d)
      | inr (e, h) ↦ rw (h, settle) (on_exception-Quiet q.client_order_id _ d)
    ]
settle-Quiet (toss retryable) q d = update_then-Quiet q.client_order_id _ _ d
settle-Quiet failed q d = on_exception-Quiet q.client_order_id _ d

refresh_existing-Quiet :
    (reply : Reply) (q : OrderRequest) (row : OrderRow) (d : Desk)
    → Quiet d (refresh_existing reply q row d).0
unfolding refresh_existing
refresh_existing-Quiet (receipt r) q row d =
    elim (Result-cases (validate_receipt r q.client_order_id q.symbol q.side q.quantity)) [
      | inl (u, h) ↦
          rw (h, refresh_existing) (update_then-Quiet q.client_order_id (receipt_update r) (ok r) d)
      | inr (e, h) ↦
          rw (h, refresh_existing) (update_then-Quiet q.client_order_id (status_update unknown) _ d)
    ]
refresh_existing-Quiet (toss retryable) q row d = Quiet-refl d
refresh_existing-Quiet failed q row d = Quiet-refl d

pub resubmit-Quiet :
    (reply : Reply) (q : OrderRequest) (row : OrderRow) (d : Desk)
    → Quiet d (resubmit reply q row d).0
unfolding resubmit
resubmit-Quiet reply q row d =
    if-Quiet d (is_absent row.broker_order_id) (d, ok (local_receipt row))
      (refresh_existing reply q row d) (Quiet-refl d) (refresh_existing-Quiet reply q row d)

-- After the reservation, what is sent is quiet or one post.
pub data Sent (q : OrderRequest) (d d' : Desk) : Type 0 where
  unsent : Quiet d d' → Sent q d d'
  sent : Wrote d d' → d'.posted ≡ q ∷ d.posted → Sent q d d'

settle-Sent : (reply : Reply) (q : OrderRequest) (d : Desk) → Sent q d (settle reply q (post q d)).0
settle-Sent reply q d = let (w, p) = settle-Quiet reply q (post q d) in sent w p

if-Sent :
    (q : OrderRequest) (d : Desk) (b : Bool) (x y : Outcome)
    → Sent q d x.0
    → Sent q d y.0
    → Sent q d (if b then x else y).0
if-Sent q d true x y p r = p
if-Sent q d false x y p r = r

module _ (s : Settings) (number : String → Number) (call : Call) (q : OrderRequest) (d : Desk) where
  place-Sent : Sent q d (place s number call q d).0
  unfolding place
  place-Sent = elim (Result-cases (require_live_auto s number call.at_lock true)) [
    | inl (u, h) ↦ rw (h, place) (settle-Sent call.place_reply q d)
    | inr (e, h) ↦ rw (h, place) (unsent (on_exception-Quiet q.client_order_id e d))
  ]

  send_unhalted-Sent : Sent q d (send_unhalted s number call q d).0
  unfolding send_unhalted
  send_unhalted-Sent =
      if-Sent q d (safe_mode_blocked s call.at_lock q.symbol)
        (reject q.client_order_id safe_mode_on d) (place s number call q d)
        (unsent (reject-Quiet q.client_order_id safe_mode_on d)) place-Sent

  send_buy-Sent : Sent q d (send_buy s number call q d).0
  unfolding send_buy
  send_buy-Sent = elim (Result-cases (buy_is_halted s.live call.at_lock.system)) [
    | inl (stopped, h) ↦
        rw (h, send_buy)
          (if-Sent q d stopped (reject q.client_order_id halted d) (send_unhalted s number call q d)
            (unsent (reject-Quiet q.client_order_id halted d)) send_unhalted-Sent)
    | inr (e, h) ↦ rw (h, send_buy) (unsent (on_exception-Quiet q.client_order_id e d))
  ]

  send_by-Sent : (side : Side) → Sent q d (send_by side s number call q d).0
  send_by-Sent buy = send_buy-Sent
  send_by-Sent sell = settle-Sent call.place_reply q d

  pub send-Sent : Sent q d (send s number call q d).0
  unfolding send
  send-Sent = send_by-Sent q.side
