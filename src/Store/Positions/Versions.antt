-- ===== src/Store/Positions/Versions.antt =====
-- A position's version through any sequence of transitions.
use jh_holdings.Prelude.{
  ℕ, ◌+◌, ◌≤◌, ◌≡◌, ◌≢◌, refl, sym, subst, ap, ◌∙◌, inl, inr, String, some, some-injective, List,
  [], ◌∷◌, true, false, arith, str_eq, eq_iff, Result, ok, raise, Bool-cases,
}
use jh_holdings.Store.Positions.{
  PositionRow, Ledger, PositionError, find_position, put_position, Transition, other_version,
  moved_row, moved_ledger, transition_position,
}
use jh_holdings.Store.Positions.Laws.{
  moved_row-identity, find_position-symbol, transition-eq-ok, find-moved_ledger,
}

abbrev after : Result PositionError Ledger → Ledger → Ledger
after (ok ledger') ledger = ledger'
after (raise e) ledger = ledger

-- a sequence of calls, a raise of which leaves the tables as they were
unfoldable pub move_all : List Transition → Ledger → Ledger
move_all [] ledger = ledger
move_all (t ∷ ts) ledger = move_all ts (after (transition_position t ledger) ledger)

-- The symbol's row is there, and its version is at least `v`.
pub AtLeast : ℕ → String → Ledger → Type 0
AtLeast v symbol ledger =
    (row : PositionRow) × (find_position symbol ledger.positions ≡ some row)
    × (v ≤ row.snapshot.version)

-- A text that equals the second differs from what the second differs from.
different : (a b s : String) → str_eq a b ≡ true → str_eq b s ≡ false → str_eq a s ≡ false
different a b s same other = subst (λ x. str_eq x s ≡ false) (sym ((eq_iff a b).0 same)) other

-- A write of another symbol's row.
find-put_other :
    (symbol other : String) (rows : List PositionRow) (new : PositionRow)
    → str_eq new.snapshot.symbol other ≡ true
    → str_eq other symbol ≡ false
    → find_position symbol (put_position other new rows) ≡ find_position symbol rows
unfolding find_position put_position
find-put_other symbol other [] new h d = cc
find-put_other symbol other (r ∷ rest) new h d = ground (
  arith,
  find-put_other symbol other rest new h d,
  different r.snapshot.symbol other symbol,
  different new.snapshot.symbol other symbol,
)

moved-symbol :
    (t : Transition) (ledger : Ledger) (row : PositionRow)
    → find_position t.symbol ledger.positions ≡ some row
    → str_eq (moved_row t row).snapshot.symbol t.symbol ≡ true
moved-symbol t ledger row there =
    subst (λ s. str_eq s t.symbol ≡ true) (sym (moved_row-identity t row).0)
      (find_position-symbol t.symbol ledger.positions row there)

find-moved_other :
    (symbol : String) (t : Transition) (ledger : Ledger) (row : PositionRow)
    → find_position t.symbol ledger.positions ≡ some row
    → str_eq t.symbol symbol ≡ false
    → find_position symbol (moved_ledger t row ledger).positions
      ≡ find_position symbol ledger.positions
unfolding moved_ledger
find-moved_other symbol t ledger row there other =
    find-put_other symbol t.symbol ledger.positions (moved_row t row)
      (moved-symbol t ledger row there) other

moved-AtLeast :
    (v : ℕ) (symbol : String) (ledger : Ledger) (t : Transition) (row : PositionRow)
    → AtLeast v symbol ledger
    → find_position t.symbol ledger.positions ≡ some row
    → AtLeast v symbol (moved_ledger t row ledger)
unfolding AtLeast
moved-AtLeast v symbol ledger t row (old, found, le) there =
    elim (Bool-cases (str_eq t.symbol symbol)) [
      | inl same ↦
          let e : t.symbol ≡ symbol = (eq_iff t.symbol symbol).0 same in
          let here : find_position symbol ledger.positions ≡ some row =
            subst (λ s. find_position s ledger.positions ≡ some row) e there in
          let equal : old ≡ row = some-injective _ _ (sym found ∙ here) in
          (
            moved_row t row,
            subst
                (λ s.
                  find_position s (moved_ledger t row ledger).positions ≡ some (moved_row t row))
                e (find-moved_ledger t ledger row there),
            omega (
              arith,
              (moved_row-identity t row).1,
              ap (λ (r : PositionRow). r.snapshot.version) equal,
            ),
          )
      | inr other ↦ (old, find-moved_other symbol t ledger row there other ∙ found, le)
    ]

-- The version that a transition expected is the one that it read.
read_version :
    (t : Transition) (row : PositionRow) (version : ℕ)
    → t.expected_version ≡ some version
    → other_version t.expected_version row.snapshot.version ≡ false
    → row.snapshot.version ≡ version
read_version t row version e h =
    let h' : other_version (some version) row.snapshot.version ≡ false =
      subst (λ x. other_version x row.snapshot.version ≡ false) e h in
    ground arith

-- A call leaves the version where it is, or raises it.
call-AtLeast :
    (v : ℕ) (symbol : String) (t : Transition) (ledger : Ledger)
    (result : Result PositionError Ledger)
    → transition_position t ledger ≡ result
    → AtLeast v symbol ledger
    → AtLeast v symbol (after result ledger)
call-AtLeast v symbol t ledger (raise e) h held = held
call-AtLeast v symbol t ledger (ok ledger') h held =
    let (row, there, state, version, written) = transition-eq-ok t ledger ledger' h in
    subst (AtLeast v symbol) written (moved-AtLeast v symbol ledger t row held there)

move_all-AtLeast :
    (v : ℕ) (symbol : String) (ts : List Transition) (ledger : Ledger)
    → AtLeast v symbol ledger
    → AtLeast v symbol (move_all ts ledger)
unfolding move_all
move_all-AtLeast v symbol [] ledger held = held
move_all-AtLeast v symbol (t ∷ ts) ledger held =
    move_all-AtLeast v symbol ts _ (call-AtLeast v symbol t ledger _ refl held)

-- Of two transitions of a symbol that expect the same version at most one returns: after the
-- first has returned, and any sequence of transitions after it, the second does not.
pub transition-version_once :
    (t t' : Transition) (version : ℕ) (ledger ledger' : Ledger)
    → t.expected_version ≡ some version
    → t'.expected_version ≡ some version
    → t'.symbol ≡ t.symbol
    → transition_position t ledger ≡ ok ledger'
    → (ts : List Transition) (result : Ledger)
    → transition_position t' (move_all ts ledger') ≢ ok result
unfolding AtLeast
transition-version_once t t' version ledger ledger' v v' same done ts result again =
    let (row, there, state, ver, written) = transition-eq-ok t ledger ledger' done in
    let (row', there', state', ver', written') = transition-eq-ok t' _ result again in
    let start : AtLeast (version + 1) t.symbol ledger' =
      subst (AtLeast (version + 1) t.symbol) written (
        moved_row t row,
        find-moved_ledger t ledger row there,
        omega (arith, (moved_row-identity t row).1, read_version t row version v ver),
      ) in
    let (now, found, le) = move_all-AtLeast (version + 1) t.symbol ts ledger' start in
    let there'' : find_position t.symbol (move_all ts ledger').positions ≡ some row' =
      subst (λ s. find_position s (move_all ts ledger').positions ≡ some row') same there' in
    let equal : now ≡ row' = some-injective _ _ (sym found ∙ there'') in
    omega (
      arith,
      read_version t' row' version v' ver',
      ap (λ (r : PositionRow). r.snapshot.version) equal,
    )
