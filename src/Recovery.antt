-- ===== src/Recovery.antt =====
-- recovery/: what a new start finds of the session before it.
pub mod Sessions
pub mod Reclaim
