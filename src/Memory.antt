-- ===== src/Memory.antt =====
-- kernel/src/memory: physical frames, page tables, and the user part of an address space.
pub mod Paging
pub mod Loops
pub mod Pool
pub mod Path
pub mod Again
pub mod Mapped
mod Frames
mod Walk
mod Uvm
mod Copy
mod Bytes
mod Map
unfoldable pub use Paging.*
unfoldable pub use Frames.*
unfoldable pub use Walk.*
unfoldable pub use Uvm.*
unfoldable pub use Copy.*
unfoldable pub use Bytes.*
unfoldable pub use Map.*
