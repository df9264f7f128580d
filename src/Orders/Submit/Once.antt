-- ===== src/Orders/Submit/Once.antt =====
-- The log of posted requests over any sequence of submissions.
use jh_holdings.Prelude.{
  ℕ, ◌≡◌, refl, inl, inr, String, none, some, List, [], ◌∷◌, Bool, arith, if◌then◌else◌, ok,
  Bool-cases, Option-cases, subst, sym, ap,
}
use jh_holdings.Orders.Ledger.{OrderRow, Table, find_order}
use jh_holdings.Orders.Ledger.Laws.{find-append_new}
use jh_holdings.Orders.Ledger.History.{Write, write, write_all, write_all-Kept}
use jh_holdings.Orders.System.{Number}
use jh_holdings.Orders.Requests.{OrderRequest}
use jh_holdings.Orders.Books.{Books}
use jh_holdings.Orders.Cash.{new_row}
use jh_holdings.Orders.Manager.{Settings, Call, Desk, with_orders, normalize_sell_limit}
use jh_holdings.Orders.Submit.{reserve, send, submit_normalized, submit}
use jh_holdings.Prelude.{suc, ◌==◌, ◌≤◌, ltb}
use jh_holdings.Orders.Submit.Effects.{
  Wrote, Quiet, Quiet-refl, Wrote-trans, Sent, unsent, sent, resubmit-Quiet, send-Sent,
  Result-cases,
}
use jh_holdings.Orders.Submit.Reserved.{reserve-new}

-- A submission posts nothing, or it posts its request, which the ledger did not have before and
-- has from then on.
pub data Effect (q : OrderRequest) (d d' : Desk) : Type 0 where
  quiet : Quiet d d' → Effect q d d'
  posted :
      find_order q.client_order_id d.books.orders ≡ none
      → (row : OrderRow) → find_order q.client_order_id d'.books.orders ≡ some row
      → Wrote d d'
      → d'.posted ≡ q ∷ d.posted
      → Effect q d d'

module _ (s : Settings) (number : String → Number) (not_before : String → ℕ → Bool)
    (call : Call) where
  reserved-Effect :
      (q : OrderRequest) (d : Desk) (t : Table)
      → reserve s number not_before call q d.books ≡ ok t
      → Effect q d (send s number call q (with_orders d t)).0
  unfolding new_row
  reserved-Effect q d t e =
      let (free, at, done) = reserve-new s number not_before call q d.books t e in
      let first : Wrote d (with_orders d t) = (
        Write.reserve (new_row q call.now) ∷ [],
        unfold write_all write in ap (λ (x : Table × Bool). x.0) (sym done),
      ) in
      let there : find_order q.client_order_id t ≡ some (new_row q call.now) =
        rw at (find-append_new (new_row q call.now) d.books.orders free) in
      go free first there (send-Sent s number call q (with_orders d t))
    where
      go :
          find_order q.client_order_id d.books.orders ≡ none
          → Wrote d (with_orders d t)
          → find_order q.client_order_id t ≡ some (new_row q call.now)
          → Sent q (with_orders d t) (send s number call q (with_orders d t)).0
          → Effect q d (send s number call q (with_orders d t)).0
      go free first there (unsent (w, p)) =
          quiet
            (Wrote-trans d (with_orders d t) (send s number call q (with_orders d t)).0 first w, p)
      go free first there (sent (ws, w) p) =
          let (row, found, _) = write_all-Kept ws t q.client_order_id (new_row q call.now) there in
          posted free row (rw w found)
            (Wrote-trans d (with_orders d t) (send s number call q (with_orders d t)).0 first
              (ws, w))
            p

  submit_normalized-Effect :
      (q : OrderRequest) (d : Desk) → Effect q d (submit_normalized s number not_before call q d).0
  unfolding submit_normalized
  submit_normalized-Effect q d = elim (Option-cases (find_order q.client_order_id d.books.orders)) [
    | inr (row, h) ↦ rw (h, submit_normalized) (quiet (resubmit-Quiet call.order_reply q row d))
    | inl free ↦ elim (Result-cases (reserve s number not_before call q d.books)) [
      | inl (t, h) ↦ rw (free, h, submit_normalized) (reserved-Effect q d t h)
      | inr (e, h) ↦ rw (free, h, submit_normalized) (quiet (Quiet-refl d))
    ]
  ]

  pub submit-Effect :
      (q : OrderRequest) (d : Desk)
      → ((q' : OrderRequest) × Effect q' d (submit s number not_before call q d).0)
  unfolding submit
  submit-Effect q d = elim (Result-cases (normalize_sell_limit q)) [
    | inl (q', h) ↦ (q', rw (h, submit) (submit_normalized-Effect q' d))
    | inr (e, h) ↦ (q, rw (h, submit) (quiet (Quiet-refl d)))
  ]

-- how often a client id was handed to the broker
unfoldable pub posts : ℕ → List OrderRequest → ℕ
posts id [] = 0
posts id (q ∷ rest) =
    let later = posts id rest in if q.client_order_id == id then suc later else later

-- No id was posted twice, and every posted id is in the ledger.
pub IsLogged : Desk → Type 0
IsLogged d =
    (id : ℕ)
    → (posts id d.posted ≤ 1)
      × (1 ≤ posts id d.posted → (row : OrderRow) × (find_order id d.books.orders ≡ some row))

still_there :
    (d d' : Desk) (id : ℕ) (row : OrderRow)
    → Wrote d d'
    → find_order id d.books.orders ≡ some row
    → (new : OrderRow) × (find_order id d'.books.orders ≡ some new)
still_there d d' id row (ws, w) found =
    let (new, last, _) = write_all-Kept ws d.books.orders id row found in (new, rw w last)

logged_again :
    (d d' : Desk) (id : ℕ)
    → Wrote d d'
    → (1 ≤ posts id d.posted → (row : OrderRow) × (find_order id d.books.orders ≡ some row))
    → 1 ≤ posts id d.posted
    → (row : OrderRow) × (find_order id d'.books.orders ≡ some row)
logged_again d d' id w h one = let (row, found) = h one in still_there d d' id row w found

unposted :
    (d : Desk) (id : ℕ) → IsLogged d → find_order id d.books.orders ≡ none → posts id d.posted ≡ 0
unfolding IsLogged
unposted d id h free = elim (Bool-cases (ltb 0 (posts id d.posted))) [
  | inl some_posts ↦ let (row, found) = (h id).1 (ground arith) in cc
  | inr no_posts ↦ ground arith
]

Quiet-IsLogged : (d d' : Desk) → Quiet d d' → IsLogged d → IsLogged d'
unfolding IsLogged posts
Quiet-IsLogged d d' (w, p) h id = rw p ((h id).0, logged_again d d' id w (h id).1)

Effect-IsLogged : (q : OrderRequest) (d d' : Desk) → Effect q d d' → IsLogged d → IsLogged d'
unfolding IsLogged posts
Effect-IsLogged q d d' (quiet c) h id = Quiet-IsLogged d d' c h id
Effect-IsLogged q d d' (posted free row found w p) h id =
    elim (Bool-cases (q.client_order_id == id)) [
      | inl e ↦
          let same : q.client_order_id ≡ id = ground arith in
          let free' : find_order id d.books.orders ≡ none =
            subst (λ n. find_order n d.books.orders ≡ none) same free in
          let found' : find_order id d'.books.orders ≡ some row =
            subst (λ n. find_order n d'.books.orders ≡ some row) same found in
          let zero' = unposted d id h free' in rw (p, e, zero') (omega arith, λ one. (row, found'))
      | inr e ↦ rw (p, e) ((h id).0, logged_again d d' id w (h id).1)
    ]

-- What may happen between two submissions: other ledger writes, and changes of the other tables.
pub data Step : Type 0 where
  submitted : Call → OrderRequest → Step
  written : Write → Step
  elsewhere : (Books → Books) → Step

module _ (s : Settings) (number : String → Number) (not_before : String → ℕ → Bool) where
  unfoldable pub step : Step → Desk → Desk
  step (submitted call q) d = (submit s number not_before call q d).0
  step (written w) d = with_orders d (write w d.books.orders)
  step (elsewhere f) d = record {
    books = record (f d.books) { orders = d.books.orders };
    posted = d.posted;
  }

  unfoldable pub run : List Step → Desk → Desk
  run [] d = d
  run (x ∷ xs) d = run xs (step x d)

  step-IsLogged : (x : Step) (d : Desk) → IsLogged d → IsLogged (step x d)
  unfolding step
  step-IsLogged (submitted call q) d h =
      let (q', e) = submit-Effect s number not_before call q d in
      Effect-IsLogged q' d (submit s number not_before call q d).0 e h
  step-IsLogged (written w) d h =
      Quiet-IsLogged d (with_orders d (write w d.books.orders))
        ((w ∷ [], unfold write_all in refl), refl) h
  step-IsLogged (elsewhere f) d h = unfold IsLogged in h

  run-IsLogged : (xs : List Step) (d : Desk) → IsLogged d → IsLogged (run xs d)
  unfolding run
  run-IsLogged [] d h = h
  run-IsLogged (x ∷ xs) d h = run-IsLogged xs (step x d) (step-IsLogged x d h)

  -- From an empty log, through any sequence of submissions with whatever replies, failures and
  -- readings, and of other ledger writes and table changes between them, no client id is handed
  -- to the broker more than once.
  pub run-posts-once :
      (xs : List Step) (d : Desk) (id : ℕ) → d.posted ≡ [] → posts id (run xs d).posted ≤ 1
  unfolding IsLogged posts
  run-posts-once xs d id e =
      (run-IsLogged xs d (λ k. rw e (omega arith, λ one. absurd (omega arith))) id).0
