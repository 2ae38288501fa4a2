-- ===== src/Decimal.antt =====
-- The decimal arithmetic of Python that the calculation modules use: `Decimal` under the default
-- context (28 significant digits, ROUND_HALF_EVEN), `quantize`, and the comparisons.
--
-- A Decimal is the integer number of units of 10^-60. A value with more digits than that is
-- rounded there, where Python rounds at 10^-1000026; every other digit agrees. A sum, a product
-- and a quotient are rounded once, from the exact value, to 28 significant digits, as Python
-- does. A zero has no sign.
mod Context
pub mod Rounding
pub mod Exact
pub mod Sign
pub mod Money
unfoldable pub use Context.*
