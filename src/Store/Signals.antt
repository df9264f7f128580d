-- ===== src/Store/Signals.antt =====
-- application/database.py: the `signals` table. Times are numbers; the version texts of the strategy
-- and its configuration are the same for all rows of one run, and are compared as one number.
use jh_holdings.Prelude.{
  ℕ, String, Option, none, some, List, [], ◌∷◌, ◌++◌, map, Bool, true, false, not, ◌&&◌, ltb, ◌==◌,
  if◌then◌else◌, str_eq,
}
use jh_holdings.Decimal.{Decimal}
use jh_holdings.Core.Enums.{DecisionType}
use jh_holdings.Core.Models.{TradeDecision}

pub data SignalStatus : Type 0 where
  active invalid expired signal_unknown executed : SignalStatus

unfoldable pub SignalStatus-discrete : Discrete SignalStatus
SignalStatus-discrete = hlevel

abbrev pub is_status : SignalStatus → SignalStatus → Bool
is_status a b = elim (SignalStatus-discrete a b) [ yes _ ↦ true | no _ ↦ false ]

unfoldable pub DecisionType-discrete : Discrete DecisionType
DecisionType-discrete = hlevel

abbrev pub same_action : DecisionType → DecisionType → Bool
same_action a b = elim (DecisionType-discrete a b) [ yes _ ↦ true | no _ ↦ false ]

-- what identifies a signal: the columns of its unique index
pub record SignalKey : Type 0 where
  pub symbol : String
  pub trade_date : ℕ
  pub version : ℕ
  pub kind : DecisionType

pub record SignalRow : Type 0 where
  pub signal_id : ℕ
  pub key : SignalKey
  pub target_stage : Option ℕ
  pub signal_close : Decimal
  pub atr_pct : Decimal
  pub max_chase_price : Decimal
  pub planned_budget : Decimal
  pub cycle_exposure_cap : Decimal
  pub valid_until : ℕ
  pub status : SignalStatus
  pub processed : Bool

abbrev pub Signals : Type 0
Signals = List SignalRow

unfoldable pub same_key : SignalKey → SignalKey → Bool
same_key a b =
    str_eq a.symbol b.symbol
    && (a.trade_date == b.trade_date && (a.version == b.version && same_action a.kind b.kind))

unfoldable pub find_key : SignalKey → Signals → Option SignalRow
find_key key [] = none
find_key key (row ∷ rest) =
    let later = find_key key rest in if same_key row.key key then some row else later

-- `get_signal`; a missing id is its `KeyError`
unfoldable pub get_signal : ℕ → Signals → Option SignalRow
get_signal id [] = none
get_signal id (row ∷ rest) =
    let later = get_signal id rest in if row.signal_id == id then some row else later

-- the arguments of `create_signal` that are stored
pub record SignalRequest : Type 0 where
  pub key : SignalKey
  pub decision : TradeDecision
  pub signal_close : Decimal
  pub atr_pct : Decimal
  pub max_chase_price : Decimal
  pub valid_until : ℕ

unfoldable pub signal_row : ℕ → SignalRequest → SignalRow
signal_row id r = record {
  signal_id = id;
  key = r.key;
  target_stage = r.decision.target_stage;
  signal_close = r.signal_close;
  atr_pct = r.atr_pct;
  max_chase_price = r.max_chase_price;
  planned_budget = r.decision.planned_budget;
  cycle_exposure_cap = r.decision.cycle_exposure_cap;
  valid_until = r.valid_until;
  status = active;
  processed = false;
}

-- `INSERT OR IGNORE` under a fresh id: the id of the row of the key, and whether it is new
abbrev pub inserted_or_old : Option SignalRow → SignalRow → Signals → Signals × (ℕ × Bool)
inserted_or_old (some old) new rows = (rows, (old.signal_id, false))
inserted_or_old none new rows = (rows ++ new ∷ [], (new.signal_id, true))

-- `create_signal`; `id` is the next row id
unfoldable pub create_signal : ℕ → SignalRequest → Signals → Signals × (ℕ × Bool)
create_signal id r rows = inserted_or_old (find_key r.key rows) (signal_row id r) rows

abbrev pub is_open_signal : SignalRow → Bool
is_open_signal row = is_status row.status active && not row.processed

abbrev closed_as : SignalStatus → SignalRow → SignalRow
closed_as status row = record row { status = status; processed = true }

-- `invalidate_active_signals`, on one row; `keep` is the date and the action to keep
abbrev kept : Option (ℕ × DecisionType) → ℕ → SignalRow → Bool
kept none version row = false
kept (some (date, kind)) version row =
    row.key.trade_date == date && (same_action row.key.kind kind && row.key.version == version)

unfoldable pub invalidate : String → Option (ℕ × DecisionType) → ℕ → SignalRow → SignalRow
invalidate symbol keep version row =
    if str_eq row.key.symbol symbol && (is_open_signal row && not (kept keep version row))
    then closed_as invalid row
    else row

abbrev pub invalidate_active_signals : String → Option (ℕ × DecisionType) → ℕ → Signals → Signals
invalidate_active_signals symbol keep version rows = map (invalidate symbol keep version) rows

-- `mark_signal`, on one row
unfoldable pub mark : ℕ → SignalStatus → Bool → SignalRow → SignalRow
mark id status processed row =
    if row.signal_id == id then record row { status = status; processed = processed } else row

abbrev pub mark_signal : ℕ → SignalStatus → Bool → Signals → Signals
mark_signal id status processed rows = map (mark id status processed) rows

-- `expire_stale_signals`, on one row
unfoldable pub expire : ℕ → SignalRow → SignalRow
expire now row =
    if is_open_signal row && ltb row.valid_until now then closed_as expired row else row

abbrev pub expire_stale_signals : ℕ → Signals → Signals
expire_stale_signals now rows = map (expire now) rows

-- `active_signals` of a symbol, in the order of the table
unfoldable pub active_signals : String → Signals → Signals
active_signals symbol [] = []
active_signals symbol (row ∷ rest) =
    let later = active_signals symbol rest in
    if is_open_signal row && str_eq row.key.symbol symbol then row ∷ later else later
