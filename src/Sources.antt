-- ===== src/Sources.antt =====
-- sources/resolver.py and security/ssrf.py: how audio is fetched.
pub mod Ssrf
pub mod Download
pub mod Fetch
pub mod Broker
