-- ===== src/Orders/Submit/Boundary.antt =====
-- The last checks before a BUY is handed to the broker.
use jh_holdings.Prelude.{
  ℕ, ◌≡◌, refl, inl, inr, String, Bool, true, false, ok, Bool-cases, Option-cases, subst, sym,
}
use jh_holdings.Orders.Ledger.{buy, find_order}
use jh_holdings.Orders.System.{Number}
use jh_holdings.Orders.Requests.{OrderRequest}
use jh_holdings.Orders.Manager.{
  Settings, Call, Desk, with_orders, halted, safe_mode_on, buy_is_halted, safe_mode_blocked,
  require_live_auto,
}
use jh_holdings.Orders.Submit.{
  reserve, place, send_unhalted, send_buy, send_by, send, submit_normalized, submit,
}
use jh_holdings.Prelude.{◌≢◌}
use jh_holdings.Orders.Manager.{normalize_sell_limit, normalize_by, Readings}
use jh_holdings.Orders.Submit.Effects.{
  resubmit-Quiet, on_exception-Quiet, reject-Quiet, Result-cases,
}

-- The three checks at the lock have passed.
pub record Cleared (s : Settings) (number : String → Number) (r : Readings) (symbol : String)
    : Type 0 where
  pub not_halted : buy_is_halted s.live r.system ≡ ok false
  pub not_safe_mode : safe_mode_blocked s r symbol ≡ false
  pub contract : require_live_auto s number r true ≡ ok tt

module _ (s : Settings) (number : String → Number) (not_before : String → ℕ → Bool) (call : Call)
    (q : OrderRequest) where
  send_buy-Cleared :
      (d : Desk)
      → (send_buy s number call q d).0.posted ≢ d.posted
      → Cleared s number call.at_lock q.symbol
  unfolding send_buy send_unhalted place
  send_buy-Cleared d h = elim (Result-cases (buy_is_halted s.live call.at_lock.system)) [
    | inr (e, corrupt) ↦
        absurd (rw (corrupt, send_buy) at h (on_exception-Quiet q.client_order_id e d).1)
    | inl (true, stop) ↦
        absurd (rw (stop, send_buy) at h (reject-Quiet q.client_order_id halted d).1)
    | inl (false, go_on) ↦ elim (Bool-cases (safe_mode_blocked s call.at_lock q.symbol)) [
      | inl safe ↦ absurd (
          rw (go_on, safe, send_buy, send_unhalted) at h
            (reject-Quiet q.client_order_id safe_mode_on d).1)
      | inr free ↦ elim (Result-cases (require_live_auto s number call.at_lock true)) [
        | inr (e, broken) ↦ absurd (
            rw (go_on, free, broken, send_buy, send_unhalted, place) at h
              (on_exception-Quiet q.client_order_id e d).1)
        | inl (tt, kept) ↦ record { not_halted = go_on; not_safe_mode = free; contract = kept }
      ]
    ]
  ]

  normalize-buy : q.side ≡ buy → normalize_sell_limit q ≡ ok q
  unfolding normalize_sell_limit
  normalize-buy e = subst (λ side. normalize_by side q.order_type q.price q ≡ ok q) (sym e) refl

  send-buy : (d : Desk) → q.side ≡ buy → send s number call q d ≡ send_buy s number call q d
  unfolding send
  send-buy d e =
      subst (λ side. send_by side s number call q d ≡ send_buy s number call q d) (sym e) refl

  submit_normalized-Cleared :
      (d : Desk)
      → q.side ≡ buy
      → (submit_normalized s number not_before call q d).0.posted ≢ d.posted
      → Cleared s number call.at_lock q.symbol
  unfolding submit_normalized
  submit_normalized-Cleared d e h =
      elim (Option-cases (find_order q.client_order_id d.books.orders)) [
        | inr (row, old) ↦
            absurd (rw (old, submit_normalized) at h (resubmit-Quiet call.order_reply q row d).1)
        | inl free ↦ elim (Result-cases (reserve s number not_before call q d.books)) [
          | inr (x, refused) ↦ absurd (rw (free, refused, submit_normalized) at h refl)
          | inl (t, kept) ↦
              send_buy-Cleared (with_orders d t)
                (rw (free, kept, submit_normalized, send-buy (with_orders d t) e) at h)
        ]
      ]

  -- A BUY whose submission changed the log of posted requests had, in the readings at the buy
  -- lock, a readable operator halt that is off, no SAFE_MODE of the portfolio or of its symbol,
  -- and a JH AUTO check with a regular session demanded that raised nothing.
  pub submit-Cleared :
      (d : Desk)
      → q.side ≡ buy
      → (submit s number not_before call q d).0.posted ≢ d.posted
      → Cleared s number call.at_lock q.symbol
  unfolding submit
  submit-Cleared d e h = submit_normalized-Cleared d e (rw (normalize-buy e, submit) at h)
