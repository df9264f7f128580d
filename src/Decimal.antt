-- ===== src/Decimal.antt =====
-- Python's `Decimal` (and the floats that the strategy compares) as exact fractions.
-- `(up - down) / (below + 1)`: a number has many such forms, and every comparison is by value.
-- The 28 significant digits of Python's default context are not modelled: results are exact.
mod Defs
pub mod Laws
pub mod Rounding
pub mod Quantize
pub mod Mean
unfoldable pub use Defs.*
