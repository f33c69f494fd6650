-- ===== src/Destinations.antt =====
-- internal/destinations: what the adapters share.
pub mod SentCache
pub mod Signatures
pub mod StripeWebhook
pub mod MetronomeWebhook
