-- ===== src/Core.antt =====
-- src/dev_harness/core: the critic gatekeeper and its command handler, the interrupt of a
-- process group, and the registry of tasks.
pub mod Critic
pub mod Signals
pub mod TaskRegistry
