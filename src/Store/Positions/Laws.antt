-- ===== src/Store/Positions/Laws.antt =====
-- What a transition writes.
use jh_holdings.Prelude.{
  ◌+◌, ◌≡◌, refl, sym, subst, ◌∙◌, inl, inr, String, some, some-injective, List, [], ◌∷◌, true,
  false, not, arith, str_eq, ok, Bool-cases, Option-cases, ok-injective, raise_if-eq-ok,
}
use jh_holdings.Core.Enums.{is_state}
use jh_holdings.Store.Positions.{
  PositionRow, Change, cycle_id, qty, avg_price, current_cost_basis, cycle_exposure_cap,
  staged_entry_capital, cash_remaining, anchor_price, last_entry_price, entry_count, rebuy_count,
  tp1_filled_qty, last_entry_date, rebuy_recovery_armed, risk_review_level, tp_plan_id, set_column,
  set_columns, Ledger, state_conflict, version_conflict, find_position, put_position, Transition,
  other_version, moved_row, moved_ledger, transition_position,
}

set_column-identity :
    (c : Change) (row : PositionRow)
    → ((set_column c row).snapshot.symbol ≡ row.snapshot.symbol)
      × ((set_column c row).snapshot.version ≡ row.snapshot.version)
      × ((set_column c row).snapshot.state ≡ row.snapshot.state)
unfolding set_column
set_column-identity (cycle_id x) row = (refl, refl, refl)
set_column-identity (qty x) row = (refl, refl, refl)
set_column-identity (avg_price x) row = (refl, refl, refl)
set_column-identity (current_cost_basis x) row = (refl, refl, refl)
set_column-identity (cycle_exposure_cap x) row = (refl, refl, refl)
set_column-identity (staged_entry_capital x) row = (refl, refl, refl)
set_column-identity (cash_remaining x) row = (refl, refl, refl)
set_column-identity (anchor_price x) row = (refl, refl, refl)
set_column-identity (last_entry_price x) row = (refl, refl, refl)
set_column-identity (entry_count x) row = (refl, refl, refl)
set_column-identity (rebuy_count x) row = (refl, refl, refl)
set_column-identity (tp1_filled_qty x) row = (refl, refl, refl)
set_column-identity (last_entry_date x) row = (refl, refl, refl)
set_column-identity (rebuy_recovery_armed x) row = (refl, refl, refl)
set_column-identity (risk_review_level x) row = (refl, refl, refl)
set_column-identity (tp_plan_id x) row = (refl, refl, refl)

set_columns-identity :
    (cs : List Change) (row : PositionRow)
    → ((set_columns cs row).snapshot.symbol ≡ row.snapshot.symbol)
      × ((set_columns cs row).snapshot.version ≡ row.snapshot.version)
      × ((set_columns cs row).snapshot.state ≡ row.snapshot.state)
unfolding set_columns
set_columns-identity [] row = (refl, refl, refl)
set_columns-identity (c ∷ cs) row =
    let (symbol, version, state) = set_columns-identity cs (set_column c row) in
    let (symbol', version', state') = set_column-identity c row in
    (symbol ∙ symbol', version ∙ version', state ∙ state')

-- No update changes the symbol or the state; the version grows by one.
pub moved_row-identity :
    (t : Transition) (row : PositionRow)
    → ((moved_row t row).snapshot.symbol ≡ row.snapshot.symbol)
      × ((moved_row t row).snapshot.version ≡ row.snapshot.version + 1)
      × ((moved_row t row).snapshot.state ≡ t.new_state)
unfolding moved_row
moved_row-identity t row = set_columns-identity t.updates _

pub find_position-symbol :
    (symbol : String) (rows : List PositionRow) (row : PositionRow)
    → find_position symbol rows ≡ some row
    → str_eq row.snapshot.symbol symbol ≡ true
unfolding find_position
find_position-symbol symbol [] row e = cc
find_position-symbol symbol (r ∷ rest) row e = elim (Bool-cases (str_eq r.snapshot.symbol symbol)) [
  | inl h ↦
      subst (λ (x : PositionRow). str_eq x.snapshot.symbol symbol ≡ true)
        (some-injective _ _ (rw h at e)) h
  | inr h ↦ find_position-symbol symbol rest row (rw h at e)
]

pub find-put_position :
    (symbol : String) (rows : List PositionRow) (row new : PositionRow)
    → find_position symbol rows ≡ some row
    → str_eq new.snapshot.symbol symbol ≡ true
    → find_position symbol (put_position symbol new rows) ≡ some new
unfolding find_position put_position
find-put_position symbol [] row new e h = cc
find-put_position symbol (r ∷ rest) row new e h =
    elim (Bool-cases (str_eq r.snapshot.symbol symbol)) [
      | inl same ↦ rw (same, h) refl
      | inr other ↦ rw (other, other) (find-put_position symbol rest row new (rw other at e) h)
    ]

pub transition-eq-ok :
    (t : Transition) (ledger after : Ledger)
    → transition_position t ledger ≡ ok after
    → (row : PositionRow) × (find_position t.symbol ledger.positions ≡ some row)
      × (is_state row.snapshot.state t.expected_state ≡ true)
      × (other_version t.expected_version row.snapshot.version ≡ false)
      × (moved_ledger t row ledger ≡ after)
unfolding transition_position
transition-eq-ok t ledger after h = elim (Option-cases (find_position t.symbol ledger.positions)) [
  | inl absent ↦ cc (rw absent at h)
  | inr (row, found) ↦
      let h' = rw found at h in
      let (state, rest) =
        raise_if-eq-ok (not (is_state row.snapshot.state t.expected_state)) state_conflict _ h' in
      let (version, done) =
        raise_if-eq-ok (other_version t.expected_version row.snapshot.version) version_conflict _
          rest in
      (row, found, ground arith, version, ok-injective done)
]

pub transition_total :
    (t : Transition) (ledger : Ledger) (row : PositionRow)
    → find_position t.symbol ledger.positions ≡ some row
    → is_state row.snapshot.state t.expected_state ≡ true
    → other_version t.expected_version row.snapshot.version ≡ false
    → transition_position t ledger ≡ ok (moved_ledger t row ledger)
unfolding transition_position
transition_total t ledger row found state version = rw (found, state, version) refl

-- The row that a transition leaves.
pub find-moved_ledger :
    (t : Transition) (ledger : Ledger) (row : PositionRow)
    → find_position t.symbol ledger.positions ≡ some row
    → find_position t.symbol (moved_ledger t row ledger).positions ≡ some (moved_row t row)
unfolding moved_ledger
find-moved_ledger t ledger row found =
    find-put_position t.symbol ledger.positions row (moved_row t row) found (
      subst (λ s. str_eq s t.symbol ≡ true) (sym (moved_row-identity t row).0)
        (find_position-symbol t.symbol ledger.positions row found))
