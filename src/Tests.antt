-- ===== src/Tests.antt =====
-- Runs of the theorems on a small machine.
pub mod Machine
pub mod Scheduling
pub mod Calls
pub mod Space
pub mod Blocks
pub mod Exec
pub mod Dispatch
pub mod User
pub mod Timer
pub mod Entry
pub mod Task
