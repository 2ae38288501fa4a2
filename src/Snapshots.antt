-- ===== src/Snapshots.antt =====
-- The append-only snapshots of backend/app/services/working_capital_service.py and
-- inventory_valuation_service.py: their storage boundary, the lock on a date, and corrections.
pub mod WorkingCapital
pub mod Boundary
pub mod Corrections
pub mod Valuation
pub mod Aging
mod Tests
