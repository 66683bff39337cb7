-- ===== src/Security.antt =====
-- security/auth.py: who may call the server over HTTP.
pub mod Auth
