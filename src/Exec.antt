-- ===== src/Exec.antt =====
-- kernel/src/exec/mod.rs: ELF images, and the user space of a new program.
pub mod Rollback
pub mod Stack
pub mod Whole
pub mod Header
pub mod Loaded
pub mod Prepared
pub mod Loops
mod Elf
mod Space
mod Image
mod Commit
unfoldable pub use Elf.*
unfoldable pub use Space.*
unfoldable pub use Image.*
unfoldable pub use Commit.*
