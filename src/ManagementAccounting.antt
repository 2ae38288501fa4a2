-- ===== src/ManagementAccounting.antt =====
-- backend/app/analytics/management_accounting.py: cost allocation, the net margin of a customer,
-- working capital, exposures, evidence tiers and the ageing of invoices.
mod Allocation
mod NetMargin
mod Capital
pub mod Margin
pub mod Aging
mod Tests
unfoldable pub use Allocation.*
unfoldable pub use NetMargin.*
unfoldable pub use Capital.*
