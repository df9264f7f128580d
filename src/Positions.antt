-- ===== src/Positions.antt =====
-- application/position_manager.py: what a fill does to its position.
pub mod Book
pub mod Buys
pub mod Sells
pub mod Effects
pub mod Balance
pub mod SellRuns
pub mod BuyRuns
mod Tests
