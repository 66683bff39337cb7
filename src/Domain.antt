-- ===== src/Domain.antt =====
-- src/open_transcribe/domain: the data that every component passes around.
pub mod Errors
pub mod Audio
pub mod Capabilities
pub mod Transcript
pub mod Outcomes
