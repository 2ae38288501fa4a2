-- ===== src/Opportunity.antt =====
-- backend/app/services/opportunity_service.py over backend/app/db/models/opportunity.py: the
-- register of savings opportunities, its waterfall of stages, and the versioned events of its two
-- measures.
pub mod Model
pub mod Events
pub mod Service
pub mod Waterfall
pub mod Steps
pub mod Versions
pub mod Constraints
pub mod Evidence
pub mod Progress
pub mod Endings
mod Tests
mod ProgressTests
