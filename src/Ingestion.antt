-- ===== src/Ingestion.antt =====
-- backend/app/ingestion: the validation of the rows of a price list, and the rows that are staged for
-- the matching.
pub mod Numbers
pub mod Validation
mod Tests
