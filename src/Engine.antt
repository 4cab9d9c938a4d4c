-- ===== src/Engine.antt =====
-- engine/: the parts of the engine daemon.
pub mod Validators
pub mod Integrator
pub mod Watcher
pub mod Commands
pub mod Dag
pub mod Fanout
pub mod Routing
pub mod Overflow
pub mod WorkerPool
pub mod Session
pub mod Shutdown
pub mod Context
pub mod Classifier
