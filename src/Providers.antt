-- ===== src/Providers.antt =====
-- providers/: what the provider adapters share.
pub mod Errors
