-- ===== src/Core/Allocation.antt =====
-- core/v322_allocation.py: the monthly one-way allocation state, its weights and the risk budget.
mod Policy
mod Defs
mod Replay
pub mod State
pub mod ReplayLaws
pub mod Weights
pub mod Budget
mod Tests
unfoldable pub use Policy.*
unfoldable pub use Defs.*
unfoldable pub use Replay.*
