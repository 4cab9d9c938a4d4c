-- ===== src/Ipc.antt =====
-- ipc/: frames on a byte stream, the bounded queue of a client, and the event router.
pub mod Framing
pub mod Queue
pub mod Router
