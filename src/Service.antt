-- ===== src/Service.antt =====
-- service.py: a request from its route to its result. Attempts, Limits and Transcribe define, the
-- others prove.
pub mod Attempts
pub mod Limits
pub mod Transcribe
pub mod Recipients
pub mod History
pub mod Results
