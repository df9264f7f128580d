-- ===== src/Orders/Books.antt =====
-- application/managed_account.py: the managed cash ledger, from the tables of one transaction.
-- `number` is `decimal.Decimal` of a text and `not_before start t` is `created_at >= start`, a
-- comparison of texts in SQL. The risk budget stored in `system_state` is a finite number, as the
-- program writes it: a text that is not one is an error here.
use jh_holdings.Prelude.{
  ℕ, ◌-◌, ◌+◌, String, Option, none, some, List, [], ◌∷◌, map, Bool, true, false, ◌&&◌, ltb,
  if◌then◌else◌, Result, ok, raise, ◌>>=◌, ◌>>◌, raise_if, str_eq,
}
use jh_holdings.Decimal.{Decimal, of_ℕ, ◌⊕◌, ◌⊖◌, ◌⊗◌, less, max, total}
use jh_holdings.Core.Enums.{core_buy}
use jh_holdings.Orders.Ledger.{OrderRow, Table, Side, buy, sell, is_open}
use jh_holdings.Orders.System.{System, Number, malformed, not_finite, finite, text_is}

pub data CashError : Type 0 where
  not_authorized quarantined operator_halted not_running bad_principal : CashError
  number_corrupt fill_without_price not_a_core_symbol over_core_target : CashError
  not_enough_cash negative_equity : CashError

-- the settings that the ledger reads
pub record Account : Type 0 where
  pub initial_capital : Decimal
  pub buy_fee : Decimal
  pub sell_fee : Decimal
  pub idle_enabled : Bool

pub record CorePosition : Type 0 where
  pub symbol : String
  pub qty : ℕ
  pub target_weight : Decimal
  pub target_qty : ℕ
  pub cost_basis : Decimal

pub record IdleHolding : Type 0 where
  pub managed_qty : ℕ
  pub avg_price : Decimal

-- the tables of one transaction; `applied_fill` is `COALESCE(applied_filled_qty, 0)` by order
pub record Books : Type 0 where
  pub orders : Table
  pub system : System
  pub position_costs : List Decimal
  pub cores : List CorePosition
  pub idle : Option IdleHolding
  pub applied_fill : ℕ → ℕ

abbrev pub auto_enabled : System → Bool
auto_enabled system = text_is (system "jh_auto_enabled") "1"

abbrev principal_of : Number → Result CashError Decimal
principal_of malformed = raise number_corrupt
principal_of not_finite = raise bad_principal
principal_of (finite v) = raise_if (less v (of_ℕ 0)) bad_principal >> ok v

abbrev principal : (String → Number) → Option String → Result CashError Decimal
principal number none = ok (of_ℕ 0)
principal number (some raw) =
    let v = principal_of (number raw) in if str_eq raw "" then ok (of_ℕ 0) else v

-- `_effective_initial_capital_from_connection`
unfoldable pub effective_initial_capital :
    Account → (String → Number) → System → Result CashError Decimal
effective_initial_capital account number system =
    if auto_enabled system
    then principal number (system "jh_auto_effective_principal")
    else ok account.initial_capital

-- `row["average_fill_price"] or row["price"]`
abbrev fill_price : OrderRow → Result CashError Decimal
fill_price row = elim row.average_fill_price [
  | some p ↦ ok p
  | none ↦ elim row.price [ some p ↦ ok p | none ↦ raise fill_without_price ]
]

abbrev moved : Account → Decimal → Side → Decimal → Decimal
moved account balance buy gross = balance ⊖ gross ⊗ (of_ℕ 1 ⊕ account.buy_fee)
moved account balance sell gross = balance ⊕ gross ⊗ (of_ℕ 1 ⊖ account.sell_fee)

abbrev changed_by : Account → Decimal → OrderRow → Result CashError Decimal
changed_by account balance row = do
  price ← fill_price row
  ok (moved account balance row.side (of_ℕ row.filled_qty ⊗ price))

-- one row of the loop, if the query selects it
unfoldable pub apply_cash : Account → (ℕ → Bool) → Decimal → OrderRow → Result CashError Decimal
apply_cash account selected balance row =
    let changed = changed_by account balance row in
    if ltb 0 row.filled_qty && selected row.created_at then changed else ok balance

unfoldable pub cash_from : Account → (ℕ → Bool) → Decimal → Table → Result CashError Decimal
cash_from account selected balance [] = ok balance
cash_from account selected balance (row ∷ rest) =
    apply_cash account selected balance row >>= λ changed. cash_from account selected changed rest

abbrev window : (String → ℕ → Bool) → Bool → Option String → ℕ → Bool
window not_before false start t = true
window not_before true none t = false
window not_before true (some start) t = not_before start t

-- `not accounting_start`
abbrev is_blank : Option String → Bool
is_blank none = true
is_blank (some start) = str_eq start ""

-- `_raw_managed_cash_from_connection`
unfoldable pub raw_managed_cash :
    Account → (String → Number) → (String → ℕ → Bool) → System → Table → Result CashError Decimal
raw_managed_cash account number not_before system orders = do
  balance ← effective_initial_capital account number system
  let auto_mode = auto_enabled system
  let start = system "jh_auto_accounting_started_at"
  let replayed = cash_from account (window not_before auto_mode start) balance orders
  if auto_mode && is_blank start then ok balance else replayed

abbrev idle_cost : Bool → Option IdleHolding → Decimal
idle_cost true (some h) = of_ℕ h.managed_qty ⊗ h.avg_price
idle_cost _ _ = of_ℕ 0

-- `_managed_cost_basis_from_connection`
unfoldable pub managed_cost_basis : Account → Books → Decimal
managed_cost_basis account books = max (of_ℕ 0) (
    total books.position_costs
    ⊕ total (map (λ c. c.cost_basis) books.cores)
    ⊕ idle_cost account.idle_enabled books.idle)

abbrev pub finite_or_corrupt : Number → Result CashError Decimal
finite_or_corrupt (finite v) = ok v
finite_or_corrupt _ = raise number_corrupt

abbrev pub system_decimal : (String → Number) → Option String → Decimal → Result CashError Decimal
system_decimal number none default = ok default
system_decimal number (some raw) default = finite_or_corrupt (number raw)

-- `_risk_budget_from_connection`
unfoldable pub risk_budget_of : Account → (String → Number) → System → Result CashError Decimal
risk_budget_of account number system = do
  initial ← effective_initial_capital account number system
  system_decimal number (system "v322_risk_budget") initial

-- one row of the loop: an open BUY with a price holds back what is not yet filled
unfoldable pub hold_back : Decimal → Decimal → OrderRow → Decimal
hold_back fee reserved row =
    let remaining = row.qty - row.filled_qty in
    elim row.side [
      | buy ↦ elim row.price [
        | some price ↦
            if is_open row.status && ltb 0 remaining
            then reserved ⊕ of_ℕ remaining ⊗ price ⊗ (of_ℕ 1 ⊕ fee)
            else reserved
        | none ↦ reserved
      ]
      | sell ↦ reserved
    ]

-- the loop of `_reserved_open_buy_from_connection`, from 0
unfoldable pub reserved_from : Decimal → Decimal → Table → Decimal
reserved_from fee reserved [] = reserved
reserved_from fee reserved (row ∷ rest) = reserved_from fee (hold_back fee reserved row) rest

abbrev pub reserved_open_buy : Account → Table → Decimal
reserved_open_buy account orders = reserved_from account.buy_fee (of_ℕ 0) orders

-- one row of the loop of `_committed_core_buy_quantity_from_connection`, if its query selects it
unfoldable pub committed_by : String → (ℕ → ℕ) → OrderRow → ℕ
committed_by symbol applied_fill row =
    let bought : Bool = elim row.side [ buy ↦ true | sell ↦ false ] in
    let for_core : Bool = elim row.purpose [ core_buy ↦ true | _ ↦ false ] in
    let ordered = if is_open row.status then row.qty else row.filled_qty in
    if str_eq row.symbol symbol && (bought && for_core)
    then ordered - applied_fill row.client_order_id
    else 0

unfoldable pub committed_core_buy_quantity : String → (ℕ → ℕ) → Table → ℕ
committed_core_buy_quantity symbol applied_fill [] = 0
committed_core_buy_quantity symbol applied_fill (row ∷ rest) =
    committed_by symbol applied_fill row + committed_core_buy_quantity symbol applied_fill rest

abbrev pub find_core : String → List CorePosition → Option CorePosition
find_core symbol [] = none
find_core symbol (c ∷ rest) =
    let later = find_core symbol rest in if str_eq c.symbol symbol then some c else later
