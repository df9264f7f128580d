-- ===== src/Auto.antt =====
-- automation/service.py: `JHAutoService`, the delegation of capital to JH AUTO.
pub mod State
pub mod Config
pub mod Flow
pub mod Launch
pub mod Ramp
mod Tests
