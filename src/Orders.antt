-- ===== src/Orders.antt =====
-- The path of an order: the ledger, the guards of a buy and its submission.
pub mod Ledger
pub mod System
pub mod Guard
pub mod Requests
pub mod Books
pub mod Equity
pub mod Cash
pub mod Manager
pub mod Submit
mod Tests
