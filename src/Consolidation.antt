-- ===== src/Consolidation.antt =====
-- backend/app/analytics/domain_graph.py and the operations of
-- backend/app/services/duplicate_detection_service.py on flags: the review of a consolidation flag
-- and of a duplicate flag, the scans, and the graph of the flags.
pub mod Model
pub mod Graph
pub mod Review
pub mod Scan
mod Tests
