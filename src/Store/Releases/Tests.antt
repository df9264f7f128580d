-- ===== src/Store/Releases/Tests.antt =====
-- The sweep and the reservations on three intents.
use jh_holdings.Prelude.{ℕ, ◌≡◌, refl, some, [], ◌∷◌, map, any, true, All}
use jh_holdings.Decimal.{of_ℕ}
use jh_holdings.Core.Enums.{execution}
use jh_holdings.Store.Approvals.{Approvals, active, expire_row}
use jh_holdings.Store.Releases.{
  IntentStatus, IntentRow, Intents, Pending, waiting_sgov_fill, awaiting_execution, canceled,
  approval_is_spent, cancel_spent, expire_intent, insert_intent, waiting_by_age,
  pending_cash_release_intents, reserved_cash_release_amount,
}
use jh_holdings.Store.Releases.Laws.{
  IsSettled, IsByAge, has_signal, upsert, update, write_intents, pending-IsSettled,
  write_intents-reserved,
}

abbrev intent : (id : ℕ) → IntentStatus → (expires_at created_at : ℕ) → IntentRow
intent id status expires_at created_at = record {
  signal_id = id;
  required_amount = of_ℕ 100;
  status = status;
  execution_approval_id = some 1;
  expires_at = expires_at;
  created_at = created_at;
}

abbrev three_intents : Intents
three_intents =
    intent 1 waiting_sgov_fill 9 4
    ∷ (intent 2 awaiting_execution 9 3 ∷ (intent 3 waiting_sgov_fill 9 2 ∷ []))

abbrev old_approvals : Approvals
old_approvals =
    record {
      approval_id = 1;
      signal_id = 2;
      token_hash = 5;
      stage = execution;
      expires_at = 6;
      status = active;
    }
    ∷ []

abbrev swept : Pending
swept = pending_cash_release_intents 7 old_approvals three_intents

-- The third intent is the oldest that waits, and the approval of the second has expired.
swept_rows :
    (map IntentRow.signal_id swept.returned ≡ 3 ∷ 1 ∷ [])
    × (map IntentRow.status swept.intents
        ≡ waiting_sgov_fill ∷ (canceled ∷ (waiting_sgov_fill ∷ [])))
unfolding pending_cash_release_intents waiting_by_age insert_intent expire_intent cancel_spent
    approval_is_spent expire_row
swept_rows = (refl, refl)

pending-IsSettled_example :
    All (IsSettled 7 swept.approvals) swept.intents
    × ((any (has_signal 3) swept.returned ≡ true) × IsByAge swept.returned)
pending-IsSettled_example = pending-IsSettled 7 old_approvals three_intents 3

write_intents-reserved_example :
    reserved_cash_release_amount (some 1) 7 (
      write_intents 1
        (upsert (of_ℕ 60) 8 7 ∷ (update awaiting_execution (some 4) ∷ []))
        three_intents)
    ≡ reserved_cash_release_amount (some 1) 7 three_intents
write_intents-reserved_example =
    write_intents-reserved 1 7 (upsert (of_ℕ 60) 8 7 ∷ (update awaiting_execution (some 4) ∷ []))
      three_intents
