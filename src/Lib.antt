-- ===== src/Lib.antt =====
-- JH Holdings: a trading program that decides on leveraged funds, sizes orders, and hands them to a
-- broker through a ledger. This library models its decision core, the path of an order, what its
-- fills do to the books, and the delegation of capital to the automatic mode, and proves what they
-- promise.
--
-- Parts and files (core, application, automation and config.py stand in src/jd_holdings):
--  Prelude             shared names, Boolean tests, lists, options, results with their do notation
--  Decimal             Python's `Decimal`, and the floats that the strategy compares, as fractions
--  Core/Enums, Models, Config   core/enums.py, core/models.py, config.py
--  Core/Eligibility    core/eligibility.py: `evaluate_eligibility`
--  Core/Strategy       core/strategy.py: exposure, stage budgets, guards and `evaluate_strategy`
--  Core/Execution      core/execution.py: price ceiling, limit price, share count
--  Core/TakeProfit     core/take_profit.py and core/remainder_exit.py
--  Core/Scoring        core/scoring.py
--  Core/Regime         core/regime.py and core/risk.py
--  Core/Onboarding     core/initial_onboarding.py, the stage, fraction and target of
--                      application/initial_onboarding_portfolio.py, `target_quantity` of core/twin_core.py
--  Core/Allocation     core/v322_allocation.py: policy, monthly state, weights, replay, risk budget
--  Orders/Ledger       the `orders` table of application/database.py
--  Orders/System       its `system_state` table
--  Orders/Guard        application/jh_auto_guard.py
--  Orders/Books, Cash, Equity   application/managed_account.py: the cash ledger, the reservation
--                      of a BUY, the recording of the high-water mark
--  Orders/Requests     `OrderRequest` and `OrderReceipt` of core/models.py
--  Orders/Manager, Submit   application/order_manager.py: the checks, `submit`, `refresh_order`
--  Store/Signals, Approvals, Releases, Positions, Plans, Fills, IdleFills   other tables of
--                      application/database.py: signals, one-time approvals, cash-release intents,
--                      positions with their history, take-profit plans, core fills and idle-cash fills
--  Positions           application/position_manager.py: `apply_buy_fill` and `apply_sell_fill`
--  Broker              application/broker.py: `DryRunBroker`
--  Safety              application/operational_safety.py: the halt
--  Auto                automation/service.py: settings, launch, flows, quarantine and ramp
--
-- How they interact: an allowed decision (Core/Strategy) with a price and a share count
-- (Core/Execution) becomes a request; `submit` (Orders/Submit) looks the client id up in the ledger,
-- checks the halts and the contract (Orders/Manager, Orders/Guard), reserves the request against the
-- managed cash (Orders/Cash), checks again under the buy lock, hands it to the broker, and records
-- the reply with `update_order` (Orders/Ledger). A fill in the ledger is then applied: to a position
-- and its take-profit plan (Positions, on Store/Positions and Store/Plans), or to the core and idle
-- holdings (Store/Fills, Store/IdleFills). JH AUTO (Auto) sets the capital that the reservation may
-- use, opens it in stages, and is asked again by the contract at the buy lock (Orders/Guard). A halt
-- (Safety) sets the key that the submission reads, and ends the approvals and the cash-release
-- intents.
--
-- How code becomes definitions: a record for a dataclass or a row, a data type for an enum, one
-- function for each function or method. A call that raises is a `Result`; where a raise leaves
-- earlier writes in place, as in `submit`, the state is returned beside the `Result`. Loops over
-- lists are structural recursion, so that no fuel is needed. Other threads are arguments: `Call` has
-- the readings before the reservation and those at the lock, and `Readings` of Auto/State has what a
-- change of the capital reads from the clock, the broker and the other services. A call that writes
-- in several transactions, as `apply_buy_fill`, is a chain of state-passing calls that keeps what was
-- written before a raise; one transaction is a `Result` or is rolled back by `commit`.
--
-- Where the model differs. Numbers are exact: the 28 digits of the decimal context and the rounding
-- of floats are not modelled, `quantize` and the roundings to ticks and integers are. Symbols are
-- upper-case text, so that `.upper()` is the identity; dates, months and ids are numbers. A count is
-- a natural number, so that a check for a negative count never fires. A NaN feature is `none`. The
-- stored risk budget is a finite number. The values of `system_state` that JH AUTO keeps are there
-- parsed; log events, reasons and timestamps that nothing reads are left out. The equity that a flow
-- is valued at is a reading, as is the order's time stamp that a first take profit is noted with.
--
-- What is a parameter: `Decimal` of a text and the text of a `Decimal`, the comparison of timestamps
-- in SQL, the replies and the buying power of the broker, the session of the market clock, the power
-- of the calibration, the text of a new cycle with its random part.
--
-- What is not modelled: the pandas features and indicators, the reading of the configuration file,
-- the take-profit manager, the trading and portfolio services, monitors, the resume after a halt and
-- the reconciliation around the ledger, the measured performance and the executions of JH AUTO, the
-- backtests, and the user interfaces and network clients.
pub mod Prelude
pub mod Decimal
pub mod Core
pub mod Orders
pub mod Store
pub mod Positions
pub mod Broker
pub mod Auto
pub mod Safety
