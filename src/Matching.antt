-- ===== src/Matching.antt =====
-- backend/app/matching: the normalization of descriptions, the exact and scored matches, the
-- choice of the best candidate, pack sizes, and the plausibility of route logs.
pub mod Text
pub mod Normalize
pub mod Exact
pub mod Scorer
pub mod RouteLog
pub mod PackParser
mod Tests
