-- ===== src/Core/Strategy.antt =====
-- core/strategy.py: exposure, stage budgets, the entry guards and the entry decisions.
mod Exposure
mod Guards
mod Entry
mod Rebuy
mod Loop
pub mod Gates
pub mod Decisions
pub mod Dispatch
pub mod Total
pub mod Numbers
pub mod Budget
mod Tests
unfoldable pub use Exposure.*
unfoldable pub use Guards.*
unfoldable pub use Entry.*
unfoldable pub use Rebuy.*
unfoldable pub use Loop.*
