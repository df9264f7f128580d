-- ===== src/Core.antt =====
-- The pure decision core, src/jd_holdings/core.
pub mod Enums
pub mod Models
pub mod Config
pub mod Eligibility
pub mod Strategy
pub mod Execution
pub mod TakeProfit
pub mod Allocation
pub mod Onboarding
pub mod Scoring
pub mod Regime
pub mod Samples
mod Tests
