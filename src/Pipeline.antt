-- ===== src/Pipeline.antt =====
-- internal/pipeline: delivery of the ledger to the destinations.
pub mod Tenants
pub mod Deliver
pub mod Backoff
pub mod Loop
