-- ===== src/Store.antt =====
-- application/database.py: the tables besides the orders.
pub mod Signals
pub mod Approvals
pub mod Positions
pub mod Plans
pub mod Fills
pub mod IdleFills
pub mod Releases
mod Tests
