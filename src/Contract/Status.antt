-- ===== src/Contract/Status.antt =====
-- The status of a contract as the days pass.
use procure_foundation.Prelude.{ℕ}
use procure_foundation.Contract.{
  ContractStatus, active, notice_period_open, expiring_soon, expired, auto_renewing,
}

-- How far a contract is along its life.
abbrev pub status_rank : ContractStatus → ℕ
status_rank active = 0
status_rank expiring_soon = 1
status_rank notice_period_open = 2
status_rank auto_renewing = 2
status_rank expired = 3
