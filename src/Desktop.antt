-- ===== src/Desktop.antt =====
-- src/open_transcribe/desktop: the desktop application.
pub mod Errors
pub mod Journal
pub mod Tempaudio
pub mod Clients
pub mod Schema
pub mod Credentials
pub mod CleanupTimer
pub mod Providers
pub mod Setup
pub mod Runtime
