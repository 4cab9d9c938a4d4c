-- ===== src/Storage.antt =====
-- storage/: the checkpoints of the sessions, their retention and their integrity.
pub mod Saver
pub mod Retention
pub mod Integrity
