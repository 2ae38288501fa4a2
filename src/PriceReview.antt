-- ===== src/PriceReview.antt =====
-- The price review: backend/app/analytics/price_review_calculations.py (`Calculations`), and the
-- lines of a review with the operations of backend/app/services/price_review_service.py (`Line`,
-- `RunMatching`).
mod Calculations
mod Line
pub mod Summary
pub mod Counts
pub mod Change
pub mod Movement
pub mod Review
pub mod RunMatching
mod Tests
unfoldable pub use Calculations.*
unfoldable pub use Line.*
