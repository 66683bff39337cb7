-- ===== src/Providers.antt =====
-- src/open_transcribe/providers: what the adapters offer, the registry, prices, and the retries.
pub mod Pricing
pub mod Catalog
pub mod Registry
pub mod Retry
pub mod Normalization
