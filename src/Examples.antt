-- ===== src/Examples.antt =====
-- Concrete inputs: a codec that meets the hypotheses, spools and destinations, and the theorems
-- applied to them.
pub mod Framing
pub mod Plain
pub mod SpoolRuns
pub mod UsageRuns
pub mod PipelineRuns
pub mod DeliveryRuns
pub mod LoopRuns
pub mod CompactRuns
pub mod KvRuns
pub mod EnforcementRuns
pub mod WebhookRuns
pub mod ControllerRuns
pub mod TenantRuns
pub mod CrashRuns
pub mod IdentityRuns
