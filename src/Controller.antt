-- ===== src/Controller.antt =====
-- internal/controller/controller.go: which windows are due, their metering into the ledger, and the
-- reconciliation of tenants. Logging and gauges are left out.
pub mod Plan
pub mod Meter
pub mod Gaps
pub mod Tenants
pub mod Reconcile
