-- ===== src/Task.antt =====
-- kernel/src/task: the asynchronous tasks for the keyboard and the serial line, their executor, and
-- the interrupt handlers that feed them. The library's queue and waker cell are interfaces.
pub mod Interface
pub mod Machine
pub mod Awake
