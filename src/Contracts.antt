-- ===== src/Contracts.antt =====
-- src/dev_harness/contracts: the vocabularies, the session state, the events and the transition
-- table of the critic.
pub mod Enums
pub mod Transitions
pub mod State
pub mod Events
